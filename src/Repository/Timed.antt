-- ===== src/Repository/Timed.antt =====
-- The calls that the services pass to retryDo make one external call each.
use file_cipher_core.Prelude.{ℕ, ◌≡◌, refl, Option, none, some, List, [], ◌∷◌, map, take}
use file_cipher_core.Entity.{Uuid, ChunkData, ChunkKey, FlushItem}
use file_cipher_core.Env.{
  Result, ok, err, blocked, Fault, answered, refused, broken, System, ◌>>◌, pure, chain,
  head_outcome, spend,
}
use file_cipher_core.Retry.Time.{Takes, Takes-query, Takes-commit, spend_time, tail-Prompt}
use file_cipher_core.Repository.Sql.{latest, copy_from}
use file_cipher_core.Repository.Tables.{
  key_uuid, key_version, data_uuid, data_version, scan_data, page_of, put_keys, put_chunks, copied,
  save_rows, save_keys, save_data, get_latest_keys, get_latest_data, get_chunk_uuids_by_file_id,
}
use file_cipher_core.Repository.Stream.{append_entry, append_entries, piped, add_batch}

module _ (c : ℕ) where
  pub Takes-get_latest_keys : (ids : List Uuid) → Takes c (get_latest_keys ids)
  unfolding get_latest_keys
  Takes-get_latest_keys ids = Takes-query c (λ s. ok (latest key_uuid key_version ids s.keys))

  pub Takes-get_latest_data : (ids : List Uuid) → Takes c (get_latest_data ids)
  unfolding get_latest_data
  Takes-get_latest_data ids =
      Takes-query c (λ s. ok (map scan_data (latest data_uuid data_version ids s.chunks)))

  pub Takes-get_chunk_uuids_by_file_id :
      (file_id last : Uuid) (limit : ℕ) → Takes c (get_chunk_uuids_by_file_id file_id last limit)
  unfolding get_chunk_uuids_by_file_id
  Takes-get_chunk_uuids_by_file_id file_id last limit =
      Takes-query c (λ s. ok (page_of file_id last limit s.chunks))

  module _ {A : Type 0} (uuid version : A → ℕ) (table : System → List A)
      (put : List A → System → System) (clock : (l : List A) (s : System) → (put l s).now ≡ s.now)
      (script : (l : List A) (s : System) → (put l s).script ≡ s.script) where
    copied_clock :
        (o : Option (List A)) (s : System) → (copied uuid version table put o s).1.now ≡ s.now
    copied_clock none s = refl
    copied_clock (some l) s = clock l s

    copied_script :
        (o : Option (List A)) (s : System) → (copied uuid version table put o s).1.script ≡ s.script
    copied_script none s = refl
    copied_script (some l) s = script l s

    Takes-save_rows : (rows : List A) → Takes c (save_rows uuid version table put rows)
    unfolding save_rows
    Takes-save_rows rows =
        let asked =
          Takes-commit c
            (λ t. copied uuid version table put (copy_from uuid version rows (table t)) t)
            (record { clock = λ s. copied_clock _ s; script = λ s. copied_script _ s }) in
        record { within = asked.within; prompt = asked.prompt }

  pub Takes-save_keys : (keys : List ChunkKey) → Takes c (save_keys keys)
  unfolding save_keys
  Takes-save_keys keys =
      Takes-save_rows key_uuid key_version (λ u. u.keys) put_keys (λ _ _. refl) (λ _ _. refl) keys

  pub Takes-save_data : (rows : List ChunkData) → Takes c (save_data rows)
  unfolding save_data
  Takes-save_data rows =
      Takes-save_rows data_uuid data_version (λ u. u.chunks) put_chunks (λ _ _. refl) (λ _ _. refl)
        rows

  appended_at :
      (items : List FlushItem) (s : System)
      → ((append_entries items s).now ≡ s.now) × ((append_entries items s).script ≡ s.script)
  unfolding append_entries append_entry
  appended_at [] s = (refl, refl)
  appended_at (i ∷ items) s = appended_at items (append_entry i s)

  piped_at :
      (f : Fault) (items : List FlushItem) (s : System)
      → ((piped f items s).1.now ≡ s.now) × ((piped f items s).1.script ≡ s.script)
  piped_at answered items s = appended_at items s
  piped_at (refused e) items s = (refl, refl)
  piped_at (broken n e) items s = appended_at (take n items) s

  done_at {ℓ} : {A : Type ℓ} (p : Result A × System) → (chain p (λ _. pure {0} tt)).1 ≡ p.1
  done_at (ok a, s) = refl
  done_at (err e, s) = refl
  done_at (blocked, s) = refl

  -- What the flusher retries.
  pub Takes-add_batch : (items : List FlushItem) → Takes {0} c (add_batch items >> pure tt)
  unfolding add_batch
  Takes-add_batch items = record {
    within = λ s h.
        rw (done_at (add_batch items s), (piped_at (head_outcome s.script).fault items (spend s)).0)
          (spend_time c s h);
    prompt = λ s h.
        rw (done_at (add_batch items s), (piped_at (head_outcome s.script).fault items (spend s)).1)
          (tail-Prompt c s.script h);
  }
