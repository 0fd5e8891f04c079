-- ===== src/Rotation/Produce.antt =====
-- cipher_rotation.go, Rotator.produce: the chunks of a file, from the saved cursor on, become jobs of
-- the workers.
pub mod Rows
pub mod Jobs
pub mod Whole
use file_cipher_core.Prelude.{
  ℕ, zero, suc, Option, none, some, List, [], ◌∷◌, ◌++◌, ◌==◌, if◌then◌else◌,
}
use file_cipher_core.Entity.{Uuid, nil_uuid, ChunkData, ChunkKey}
use file_cipher_core.Env.{
  Error, canceled, message, desync, load_cursor as at_load_cursor, get_chunk_uuids,
  get_latest_data as at_latest_data, get_latest_keys as at_latest_keys, Result, ok, err, blocked,
  System, Exec, ◌>>=◌, pure, wrapping,
}
use file_cipher_core.Retry.{retry_do}
use file_cipher_core.Cipher.{Send, sent, done}
use file_cipher_core.Repository.Tables.{
  key_uuid, get_chunk_uuids_by_file_id, get_latest_data, get_latest_keys,
}
use file_cipher_core.Repository.Sql.Uuids.{last_or}
use file_cipher_core.Repository.Cursors.{load_cursor, save_cursor}
use file_cipher_core.Decipher.{index_by}
use file_cipher_core.Rotation.{RotationJob, RotatorConfig}

-- keyByUUID[id]
unfoldable pub get_key : List ChunkKey → Uuid → Option ChunkKey
get_key [] id = none
get_key (k ∷ m) id = let rest = get_key m id in if k.uuid == id then some k else rest

-- The loop over the chunks of a page: its result, the jobs sent, and the choices left for the select.
abbrev pub Sending : Type 0
Sending = Result (Unit {0}) × List RotationJob × List Send

abbrev pub cons_job : RotationJob → Sending → Sending
cons_job j (r, jobs, sends) = (r, j ∷ jobs, sends)

abbrev pub send_job : ChunkData → Option ChunkKey → List Send → (List Send → Sending) → Sending
send_job chunk none sends next = (err (message (desync chunk.uuid)), [], sends)
send_job chunk (some k) [] next = (blocked, [], [])
send_job chunk (some k) (done ∷ sends) next = (err canceled, [], sends)
send_job chunk (some k) (sent ∷ sends) next =
    cons_job (record { current = chunk; old_key = k }) (next sends)

unfoldable pub send_jobs : List ChunkKey → List ChunkData → List Send → Sending
unfolding get_key
send_jobs key_by_uuid [] sends = (ok tt, [], sends)
send_jobs key_by_uuid (chunk ∷ chunks) sends =
    send_job chunk (get_key key_by_uuid chunk.uuid) sends
      (λ rest. send_jobs key_by_uuid chunks rest)

-- What one turn of the loop reads.
pub record Page : Type 0 where
  pub ids : List Uuid
  pub chunks : List ChunkData
  pub keys : List ChunkKey

module _ (cfg : RotatorConfig) (ttl : ℕ) (file_id : Uuid) where
  unfoldable pub read_page : Uuid → Exec Page
  read_page cursor =
      wrapping get_chunk_uuids
        (retry_do cfg.retry (get_chunk_uuids_by_file_id file_id cursor cfg.page_size))
      >>= λ ids. elim ids [
        | [] ↦ pure (record { ids = []; chunks = []; keys = [] })
        | id ∷ rest ↦
            wrapping at_latest_data (retry_do cfg.retry (get_latest_data (id ∷ rest))) >>= λ chunks.
            wrapping at_latest_keys (retry_do cfg.retry (get_latest_keys (id ∷ rest))) >>= λ keys.
            pure (record { ids = id ∷ rest; chunks = chunks; keys = keys })
      ]

  -- Behind a page: an error ends the loop; else the cursor is saved, and if that fails it is only
  -- logged.
  abbrev pub page_sent :
      Sending
      → Uuid
      → (Uuid → List Send → System → (Result (Unit {0}) × List RotationJob) × System)
      → System
      → (Result (Unit {0}) × List RotationJob) × System
  page_sent (err e, jobs, sends) cursor again s = ((err e, jobs), s)
  page_sent (blocked, jobs, sends) cursor again s = ((blocked, jobs), s)
  page_sent (ok _, jobs, sends) cursor again s =
      let ((r, more), t) = again cursor sends (save_cursor ttl file_id cursor s).1 in
      ((r, jobs ++ more), t)

  abbrev pub page_read :
      Result Page × System
      → List Send
      → (Uuid → List Send → System → (Result (Unit {0}) × List RotationJob) × System)
      → (Result (Unit {0}) × List RotationJob) × System
  page_read (err e, s) sends again = ((err e, []), s)
  page_read (blocked, s) sends again = ((blocked, []), s)
  page_read (ok page, s) sends again = elim page.ids [
    | [] ↦ ((ok tt, []), s)
    | id ∷ rest ↦
        page_sent (send_jobs (index_by key_uuid page.keys []) page.chunks sends) (last_or id rest)
          again s
  ]

  unfoldable pub produce_pages :
      ℕ → Uuid → List Send → System → (Result (Unit {0}) × List RotationJob) × System
  unfolding read_page send_jobs
  produce_pages zero cursor sends s = ((blocked, []), s)
  produce_pages (suc fuel) cursor sends s =
      page_read (read_page cursor s) sends (λ next rest t. produce_pages fuel next rest t)

  abbrev pub or_nil : Option Uuid → Uuid
  or_nil none = nil_uuid
  or_nil (some c) = c

  abbrev pub cursor_loaded :
      Result (Option Uuid) × System
      → (Uuid → System → (Result (Unit {0}) × List RotationJob) × System)
      → (Result (Unit {0}) × List RotationJob) × System
  cursor_loaded (err e, s) go = ((err e, []), s)
  cursor_loaded (blocked, s) go = ((blocked, []), s)
  cursor_loaded (ok c, s) go = go (or_nil c) s

  -- `fuel` bounds the pages, `sends` are the choices of the select that sends a job.
  unfoldable pub produce : ℕ → List Send → System → (Result (Unit {0}) × List RotationJob) × System
  unfolding produce_pages
  produce fuel sends s =
      cursor_loaded (wrapping at_load_cursor (load_cursor file_id) s)
        (λ c t. produce_pages fuel c sends t)
