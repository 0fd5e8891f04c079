-- ===== src/Pending/Process.antt =====
-- `process` of internal/service/pending_worker.go on a batch of new rows.
use file_cipher_core.Prelude.{
  ℕ, ◌≡◌, refl, sym, ap, ◌∙◌, ◌⊎◌, Bool, true, false, not, some, List, map, keep, elem,
}
use file_cipher_core.Entity.{ChunkData, ChunkKey, PendingItem}
use file_cipher_core.Env.{write_pending, ack_pending, Result, ok, err, blocked, System, commit}
use file_cipher_core.Env.Binds.{wrapping-chain-ok, wrapping-ok, commit-ok, ok-injective}
use file_cipher_core.Repository.Sql.{copy_from}
use file_cipher_core.Repository.Tables.{
  key_uuid, key_version, data_uuid, data_version, put_keys, put_chunks, save_keys, save_data,
}
use file_cipher_core.Repository.Stream.{acking, ack, entry_ids}
use file_cipher_core.Repository.Save.{all_honest, retried_save}
use file_cipher_core.Pending.{PendingWorkerConfig, Fork, branch, first_error, write_both, process}

abbrev pub keys_of : List PendingItem → List ChunkKey
keys_of = map (λ i. i.item.key)

abbrev pub rows_of : List PendingItem → List ChunkData
rows_of = map (λ i. i.item.chunk)

-- A batch whose rows are new to the tables `keys` and `chunks`; each table of the state has none of
-- the batch yet, or all of it from an earlier delivery. The databases report a duplicate only where
-- there is one.
pub record Delivered (f : Fork) (items : List PendingItem) (s : System) : Type 0 where
  pub keys : List ChunkKey
  pub keys' : List ChunkKey
  pub chunks : List ChunkData
  pub chunks' : List ChunkData
  pub new_keys : copy_from key_uuid key_version (keys_of items) keys ≡ some keys'
  pub new_chunks : copy_from data_uuid data_version (rows_of items) chunks ≡ some chunks'
  pub keys_before : (s.keys ≡ keys) ⊎ (s.keys ≡ keys')
  pub chunks_before : (s.chunks ≡ chunks) ⊎ (s.chunks ≡ chunks')
  pub honest_keys : all_honest f.keys_script ≡ true
  pub honest_data : all_honest f.data_script ≡ true

pub first_error-ok :
    (b : Bool) (r q : Result (Unit {0})) → first_error b r q ≡ ok tt → (r ≡ ok tt) × (q ≡ ok tt)
unfolding first_error
first_error-ok b blocked q h = cc
first_error-ok b (ok u) blocked h = cc
first_error-ok b (err e) blocked h = cc
first_error-ok b (ok u) (ok v) h = (refl, refl)
first_error-ok b (ok u) (err e) h = cc
first_error-ok b (err e) (ok u) h = cc
first_error-ok true (err e) (err e') h = cc
first_error-ok false (err e) (err e') h = cc

ack_ok :
    (ids : List ℕ) (u t : System)
    → ack ids u ≡ (ok tt, t)
    → (t.keys ≡ u.keys) × (t.chunks ≡ u.chunks) × (t.pel ≡ keep (λ d. not (elem d.id ids)) u.pel)
unfolding ack
ack_ok ids u t h =
    let e =
      (ok-injective tt tt _ t (
        commit-ok (acking ids) u tt t
          (wrapping-ok ack_pending (commit (acking ids)) u tt t h))).1 in
    (sym (ap (λ v. v.keys) e), sym (ap (λ v. v.chunks) e), sym (ap (λ v. v.pel) e))

module _ (cfg : PendingWorkerConfig) (f : Fork) (items : List PendingItem) where
  -- No table has a part of the batch, and a success of the group is a success of both writes.
  write_both_lem :
      (s : System) (d : Delivered f items s)
      → let t = (write_both cfg f (keys_of items) (rows_of items) s).1 in
        ((t.keys ≡ d.keys) ⊎ (t.keys ≡ d.keys'))
        × ((t.chunks ≡ d.chunks) ⊎ (t.chunks ≡ d.chunks'))
        × ((write_both cfg f (keys_of items) (rows_of items) s).0 ≡ ok tt
            → (t.keys ≡ d.keys') × (t.chunks ≡ d.chunks'))
  unfolding write_both save_keys save_data
  write_both_lem s d =
      let (one_k, all_k) =
        retried_save key_uuid key_version (λ u. u.keys) put_keys (λ _ _. refl) (λ _ _. refl)
          (λ _. refl) (λ _ _. refl) (keys_of items) d.keys d.keys' d.new_keys cfg.retry
          (branch f.keys_script f.keys_cancel s) d.honest_keys d.keys_before in
      let (one_d, all_d) =
        retried_save data_uuid data_version (λ u. u.chunks) put_chunks (λ _ _. refl) (λ _ _. refl)
          (λ _. refl) (λ _ _. refl) (rows_of items) d.chunks d.chunks' d.new_chunks cfg.retry
          (branch f.data_script f.data_cancel s) d.honest_data d.chunks_before in
      (one_k, one_d, λ r. let (rk, rd) = first_error-ok _ _ _ r in (all_k rk, all_d rd))

  Tables : (s : System) → Delivered f items s → System → Type 0
  Tables s d t =
      ((t.keys ≡ d.keys) ⊎ (t.keys ≡ d.keys')) × ((t.chunks ≡ d.chunks) ⊎ (t.chunks ≡ d.chunks'))

  pub process_ok :
      (s t : System) (d : Delivered f items s)
      → process cfg f items s ≡ (ok tt, t)
      → (t.keys ≡ d.keys')
        × (t.chunks ≡ d.chunks')
        × (t.pel ≡ keep (λ e. not (elem e.id (entry_ids items))) s.pel)
  unfolding process
  process_ok s t d r =
      let (_, u, e, e') =
        wrapping-chain-ok write_pending (write_both cfg f (keys_of items) (rows_of items)) s _ tt t
          r in
      let (ek, ed, ep) =
        ack_ok (entry_ids items) u t (wrapping-ok ack_pending (ack (entry_ids items)) u tt t e') in
      let (_, _, full) = write_both_lem s d in
      let (k, r') = full (ap (λ p. p.0) e) in
      (
        ek ∙ sym (ap (λ p. p.1.keys) e) ∙ k,
        ed ∙ sym (ap (λ p. p.1.chunks) e) ∙ r',
        ep ∙ ap (λ l. keep (λ x. not (elem x.id (entry_ids items))) l) (sym (ap (λ p. p.1.pel) e)),
      )
