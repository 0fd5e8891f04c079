-- ===== src/Pending/Run/Write.antt =====
-- AddBatch, and the group that writes to both tables: what they leave of the stream's entries.
use file_cipher_core.Prelude.{
  ◌≡◌, refl, sym, subst, inl, inr, true, List, [], ◌∷◌, map, take, All, arith,
}
use file_cipher_core.Entity.{FlushItem, PendingItem}
use file_cipher_core.Env.{ok, Fault, answered, refused, broken, System, head_outcome, spend}
use file_cipher_core.Repository.Tables.{
  key_uuid, key_version, data_uuid, data_version, put_keys, put_chunks, save_keys, save_data,
}
use file_cipher_core.Repository.Stream.{append_entry, append_entries, piped, add_batch}
use file_cipher_core.Repository.Save.{all_honest}
use file_cipher_core.Pending.{PendingWorkerConfig, Fork, branch, write_both}
use file_cipher_core.Pending.Process.{keys_of, rows_of, first_error-ok}
use file_cipher_core.Pending.Run.{holding, saved}
use file_cipher_core.Pending.Run.Order.{In, In-before, In-snoc, Ascends-snoc, All-at, All-each}
use file_cipher_core.Pending.Run.Rows.{Clean, retried-Keeps, retried_all}
use file_cipher_core.Pending.Run.State.{Stored, Sound, Later, Held, Sound-spend, same_tables}

append_entries-Sound :
    (items : List FlushItem) (s : System)
    → Sound s
    → Sound (append_entries items s) × Later s (append_entries items s)
unfolding append_entries append_entry
append_entries-Sound [] s h = (h, same_tables s s refl refl refl)
append_entries-Sound (x ∷ items) s h =
    let (h', l) = append_entries-Sound items (append_entry x s) (record {
      order = Ascends-snoc 0 s.next_id s.stream _ refl h.order;
      ahead = omega (arith, h.ahead);
      kept = λ e m. elim (In-snoc e _ s.stream m) [
        | inl old ↦ h.kept e old
        | inr new ↦ inl (rw new h.ahead)
      ];
    }) in
    (
      h',
      record { entries = λ e m. l.entries e (In-before e s.stream _ m); rows = λ e r. l.rows e r },
    )

piped-Sound :
    (f : Fault) (items : List FlushItem) (s : System)
    → Sound s
    → Sound (piped f items s).1 × Later s (piped f items s).1
piped-Sound answered items s h = append_entries-Sound items s h
piped-Sound (refused e) items s h = (h, same_tables s s refl refl refl)
piped-Sound (broken n e) items s h = append_entries-Sound (take n items) s h

pub add_batch-Sound :
    (items : List FlushItem) (s : System)
    → Sound s
    → Sound (add_batch items s).1 × Later s (add_batch items s).1
unfolding add_batch
add_batch-Sound items s h =
    let (h', l) = piped-Sound (head_outcome s.script).fault items (spend s) (Sound-spend s h) in
    (h', record { entries = l.entries; rows = l.rows })

at_map {ℓ κ} :
    {B : Type ℓ} (g : PendingItem → B) (P : B → Type κ) (l : List PendingItem) (e : PendingItem)
    → All P (map g l)
    → In e l
    → P (g e)
at_map g P [] e a m = absurd m
at_map g P (x ∷ l) e (a, a') (inl m) = subst (λ y. P (g y)) (sym m) a
at_map g P (x ∷ l) e (a, a') (inr m) = at_map g P l e a' m

-- Each table has the whole batch or no row of it, and the databases report a duplicate only
-- where there is one.
pub record CleanWrite (f : Fork) (items : List PendingItem) (s : System) : Type 0 where
  pub keys : Clean key_uuid key_version (keys_of items) s.keys
  pub chunks : Clean data_uuid data_version (rows_of items) s.chunks
  pub honest_keys : all_honest f.keys_script ≡ true
  pub honest_data : all_honest f.data_script ≡ true

module _ (cfg : PendingWorkerConfig) (f : Fork) (items : List PendingItem) (s : System) where
  abbrev after : System
  after = (write_both cfg f (keys_of items) (rows_of items) s).1

  pub write-Later : Later s after
  unfolding write_both save_keys save_data
  write-Later = record {
    entries = λ e m. m;
    rows = λ e (k, d). (
      (retried-Keeps key_uuid key_version (λ u. u.keys) put_keys (λ _ _. refl) (λ _ _. refl)
            (λ _. refl) (λ _ _. refl) e.item.key (keys_of items) cfg.retry).at
          (branch f.keys_script f.keys_cancel s) k,
      (retried-Keeps data_uuid data_version (λ u. u.chunks) put_chunks (λ _ _. refl) (λ _ _. refl)
            (λ _. refl) (λ _ _. refl) e.item.chunk (rows_of items) cfg.retry).at
          (branch f.data_script f.data_cancel s) d,
    );
  }

  pub write-Sound : Sound s → Sound after
  unfolding write_both
  write-Sound h = record {
    order = h.order;
    ahead = h.ahead;
    kept = λ e m. elim (h.kept e m) [
      | inl fresh ↦ inl fresh
      | inr (inl q) ↦ inr (inl q)
      | inr (inr r) ↦ inr (inr (write-Later.rows e r))
    ];
  }

  pub write_ok :
      CleanWrite f items s
      → Held (holding items) s
      → (write_both cfg f (keys_of items) (rows_of items) s).0 ≡ ok tt
      → Held (saved items) after
  unfolding write_both save_keys save_data
  write_ok c h r =
      let (rk, rd) = first_error-ok _ _ _ r in
      let all_keys =
        retried_all key_uuid key_version (λ u. u.keys) put_keys (λ _ _. refl) (λ _ _. refl)
          (λ _. refl) (λ _ _. refl) cfg.retry (keys_of items) (branch f.keys_script f.keys_cancel s)
          c.honest_keys c.keys rk in
      let all_rows =
        retried_all data_uuid data_version (λ u. u.chunks) put_chunks (λ _ _. refl) (λ _ _. refl)
          (λ _. refl) (λ _ _. refl) cfg.retry (rows_of items) (branch f.data_script f.data_cancel s)
          c.honest_data c.chunks rd in
      All-each (λ e. In e after.stream × Stored e after) items
        λ e m. (
          All-at (λ x. In x s.stream) items e h m,
          (
            at_map (λ i. i.item.key) _ items e all_keys m,
            at_map (λ i. i.item.chunk) _ items e all_rows m,
          ),
        )
