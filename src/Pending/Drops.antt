-- ===== src/Pending/Drops.antt =====
-- `process` of internal/service/pending_worker.go on a batch in which COPY meets a duplicate.
use file_cipher_core.Prelude.{ℕ, ◌≡◌, refl, ap, ◌∙◌, not, none, List, [], keep, elem, arith, max}
use file_cipher_core.Entity.{ChunkData, ChunkKey, PendingItem}
use file_cipher_core.Env.{write_pending, ack_pending, ok, System, chain, wrapping, wrapped}
use file_cipher_core.Env.Quiet.{commit_quiet}
use file_cipher_core.Retry.{pos}
use file_cipher_core.Retry.Laws.{retry_quiet}
use file_cipher_core.Repository.Sql.{copy_from}
use file_cipher_core.Repository.Tables.{
  key_uuid, key_version, data_uuid, data_version, put_keys, put_chunks, save_keys, save_data,
  save_rows, copied, ignore_duplicates, is_unique_violation,
}
use file_cipher_core.Repository.Stream.{acking, ack, entry_ids}
use file_cipher_core.Pending.{PendingWorkerConfig, Fork, branch, first_error, write_both, process}
use file_cipher_core.Pending.Process.{keys_of, rows_of}

max_same : (n : ℕ) → max n n ≡ n
max_same n = omega arith

save_keys_duplicate :
    (keys : List ChunkKey) (s : System)
    → s.script ≡ []
    → copy_from key_uuid key_version keys s.keys ≡ none
    → save_keys keys s ≡ (ok tt, s)
unfolding save_keys save_rows ignore_duplicates is_unique_violation
save_keys_duplicate keys s q d =
    rw
      (commit_quiet
        (λ t.
          copied key_uuid key_version (λ u. u.keys) put_keys
            (copy_from key_uuid key_version keys t.keys) t)
        s q)
      (rw d refl)

save_data_duplicate :
    (rows : List ChunkData) (s : System)
    → s.script ≡ []
    → copy_from data_uuid data_version rows s.chunks ≡ none
    → save_data rows s ≡ (ok tt, s)
unfolding save_data save_rows ignore_duplicates is_unique_violation
save_data_duplicate rows s q d =
    rw
      (commit_quiet
        (λ t.
          copied data_uuid data_version (λ u. u.chunks) put_chunks
            (copy_from data_uuid data_version rows t.chunks) t)
        s q)
      (rw d refl)

module _ (cfg : PendingWorkerConfig) (f : Fork) (items : List PendingItem) where
  write_both_drops :
      (n : ℕ) (s : System)
      → cfg.retry.attempts ≡ pos n
      → f.keys_script ≡ []
      → f.data_script ≡ []
      → copy_from key_uuid key_version (keys_of items) s.keys ≡ none
      → copy_from data_uuid data_version (rows_of items) s.chunks ≡ none
      → write_both cfg f (keys_of items) (rows_of items) s ≡ (ok tt, s)
  unfolding write_both first_error
  write_both_drops n s a qk qd dk dd =
      let sk = branch f.keys_script f.keys_cancel s in
      let sd = branch f.data_script f.data_cancel s in
      rw
        (retry_quiet {0} cfg.retry n (save_keys (keys_of items)) sk sk tt a
          (save_keys_duplicate (keys_of items) sk qk dk))
        (rw
          (retry_quiet {0} cfg.retry n (save_data (rows_of items)) sd sd tt a
            (save_data_duplicate (rows_of items) sd qd dd))
          (ap (λ m. (ok tt, record s { now = m })) (max_same s.now)))

  -- SaveKeys and SaveData report success when their COPY met a duplicate. If each of the two
  -- batches has one, no call fails and the attempts are not negative, `process` writes no row,
  -- returns nil and acknowledges every entry, also those whose rows were new.
  pub process_drops :
      (n : ℕ) (s : System)
      → cfg.retry.attempts ≡ pos n
      → f.keys_script ≡ []
      → f.data_script ≡ []
      → s.script ≡ []
      → copy_from key_uuid key_version (keys_of items) s.keys ≡ none
      → copy_from data_uuid data_version (rows_of items) s.chunks ≡ none
      → process cfg f items s
        ≡ (ok tt, record s { pel = keep (λ e. not (elem e.id (entry_ids items))) s.pel })
  unfolding process ack
  process_drops n s a qk qd q dk dd =
      ap
        (λ p.
          chain (wrapped write_pending p.0, p.1)
            (λ _. wrapping ack_pending (ack (entry_ids items))))
        (write_both_drops n s a qk qd dk dd)
      ∙ rw (commit_quiet (acking (entry_ids items)) s q) refl
