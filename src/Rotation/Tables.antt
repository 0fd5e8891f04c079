-- ===== src/Rotation/Tables.antt =====
-- Rotator.Run up to g.Wait: neither `produce` nor the flusher changes the tables.
use file_cipher_core.Prelude.{ℕ, zero, suc, ◌≡◌, refl, Option, List, [], ◌∷◌, map, take}
use file_cipher_core.Entity.{Uuid, FlushItem}
use file_cipher_core.Env.{
  get_chunk_uuids, load_cursor as at_load_cursor, get_latest_data as at_latest_data,
  get_latest_keys as at_latest_keys, Result, ok, err, blocked, Fault, answered, refused, broken,
  System, Exec, wrapping, spend, head_outcome, query,
}
use file_cipher_core.Env.Keeps.{
  Keeps, Keeps-pure, Keeps-wrapping, Keeps-bind, Keeps-query, Keeps-commit,
}
use file_cipher_core.Retry.{retry_do}
use file_cipher_core.Retry.Keeps.{retry_do-Keeps}
use file_cipher_core.Cipher.{Send}
use file_cipher_core.Repository.Sql.{latest}
use file_cipher_core.Repository.Sql.Uuids.{last_or}
use file_cipher_core.Repository.Tables.{
  key_uuid, key_version, data_uuid, data_version, scan_data, page_of, get_chunk_uuids_by_file_id,
  get_latest_data, get_latest_keys,
}
use file_cipher_core.Repository.Stream.{append_entry, append_entries, piped, add_batch}
use file_cipher_core.Repository.Cursors.{find_cursor, setting, load_cursor, save_cursor}
use file_cipher_core.Flusher.{FlusherConfig, Event, run}
use file_cipher_core.Flusher.Keeps.{run-Keeps}
use file_cipher_core.Decipher.{index_by}
use file_cipher_core.Rotation.{RotationJob, RotatorConfig}
use file_cipher_core.Rotation.Produce.{
  Sending, Page, send_jobs, read_page, page_sent, page_read, produce_pages, or_nil, cursor_loaded,
  produce,
}

-- Both tables are those of `s`.
pub record SameTables (s t : System) : Type 0 where
  pub keys : t.keys ≡ s.keys
  pub chunks : t.chunks ≡ s.chunks

pub SameTables-refl : (s : System) → SameTables s s
SameTables-refl s = record { keys = refl; chunks = refl }

module _ (s : System) where
  timeless : (t : System) (n : ℕ) → SameTables s t → SameTables s (record t { now = n })
  timeless t n h = record { keys = h.keys; chunks = h.chunks }

  recancel :
      (t : System) (c : Option ℕ) → SameTables s t → SameTables s (record t { cancel_at = c })
  recancel t c h = record { keys = h.keys; chunks = h.chunks }

  spent : (t : System) → SameTables s t → SameTables s (spend t)
  spent t h = record { keys = h.keys; chunks = h.chunks }

  appended :
      (items : List FlushItem) (t : System) → SameTables s t → SameTables s (append_entries items t)
  unfolding append_entries append_entry
  appended [] t h = h
  appended (i ∷ items) t h =
      appended items (append_entry i t) (record { keys = h.keys; chunks = h.chunks })

  piped_same :
      (f : Fault) (items : List FlushItem) (t : System)
      → SameTables s t
      → SameTables s (piped f items t).1
  piped_same answered items t h = appended items t h
  piped_same (refused e) items t h = h
  piped_same (broken n e) items t h = appended (take n items) t h

  add_batch-Keeps : (items : List FlushItem) → Keeps (SameTables s) (add_batch items)
  unfolding add_batch
  add_batch-Keeps items = record {
    at = λ t h. piped_same (head_outcome t.script).fault items (spend t) (spent t h);
  }

  pub run-SameTables :
      (fl : FlusherConfig) (es : List Event) (items : List FlushItem)
      → Keeps (SameTables s) (run fl items es)
  run-SameTables = run-Keeps timeless recancel add_batch-Keeps

  page-Keeps {ℓ} :
      {A : Type ℓ} (nothing : Exec A) (page : Uuid → List Uuid → Exec A) (ids : List Uuid)
      → Keeps (SameTables s) nothing
      → ((id : Uuid) (rest : List Uuid) → Keeps (SameTables s) (page id rest))
      → Keeps (SameTables s) (elim ids [ [] ↦ nothing | id ∷ rest ↦ page id rest ])
  page-Keeps nothing page [] k l = k
  page-Keeps nothing page (id ∷ rest) k l = l id rest

  asked {ℓ} :
      {A : Type ℓ} (cfg : RotatorConfig) (q : System → Result A)
      → Keeps (SameTables s) (retry_do cfg.retry (query q))
  asked cfg q = retry_do-Keeps timeless cfg.retry _ (Keeps-query spent q)

  module _ (cfg : RotatorConfig) (ttl : ℕ) (file_id : Uuid) where
    read_page-Keeps : (cursor : Uuid) → Keeps (SameTables s) (read_page cfg ttl file_id cursor)
    unfolding read_page get_chunk_uuids_by_file_id get_latest_data get_latest_keys
    read_page-Keeps cursor =
        Keeps-bind
          (wrapping get_chunk_uuids
            (retry_do cfg.retry (get_chunk_uuids_by_file_id file_id cursor cfg.page_size)))
          _
          (Keeps-wrapping get_chunk_uuids _
            (asked cfg (λ t. ok (page_of file_id cursor cfg.page_size t.chunks))))
          λ ids.
            page-Keeps _ _ ids (Keeps-pure (record { ids = []; chunks = []; keys = [] })) λ id rest.
              Keeps-bind
                (wrapping at_latest_data (retry_do cfg.retry (get_latest_data (id ∷ rest)))) _
                (Keeps-wrapping at_latest_data _ (
                  asked cfg
                    λ t. ok (map scan_data (latest data_uuid data_version (id ∷ rest) t.chunks))))
                λ chunks.
                  Keeps-bind
                    (wrapping at_latest_keys (retry_do cfg.retry (get_latest_keys (id ∷ rest)))) _
                    (Keeps-wrapping at_latest_keys _
                      (asked cfg (λ t. ok (latest key_uuid key_version (id ∷ rest) t.keys))))
                    λ keys. Keeps-pure (record { ids = id ∷ rest; chunks = chunks; keys = keys })

    save_cursor-Keeps : (cursor : Uuid) → Keeps (SameTables s) (save_cursor ttl file_id cursor)
    unfolding save_cursor
    save_cursor-Keeps cursor =
        Keeps-commit spent (setting ttl file_id cursor)
          (record { at = λ t h. record { keys = h.keys; chunks = h.chunks } })

    -- The rest of the loop keeps the tables.
    Continues :
        (Uuid → List Send → System → (Result (Unit {0}) × List RotationJob) × System) → Type 0
    Continues again =
        (cursor : Uuid) (sends : List Send) (t : System)
        → SameTables s t
        → SameTables s (again cursor sends t).1

    page_sent_same :
        (sending : Sending) (cursor : Uuid)
        (again : Uuid → List Send → System → (Result (Unit {0}) × List RotationJob) × System)
        (t : System)
        → SameTables s t
        → Continues again
        → SameTables s (page_sent cfg ttl file_id sending cursor again t).1
    unfolding Continues
    page_sent_same (err e, jobs, sends) cursor again t h k = h
    page_sent_same (blocked, jobs, sends) cursor again t h k = h
    page_sent_same (ok v, jobs, sends) cursor again t h k =
        k cursor sends _ ((save_cursor-Keeps cursor).at t h)

    page_read_same :
        (p : Result Page × System) (sends : List Send)
        (again : Uuid → List Send → System → (Result (Unit {0}) × List RotationJob) × System)
        → SameTables s p.1
        → Continues again
        → SameTables s (page_read cfg ttl file_id p sends again).1
    page_read_same (err e, t) sends again h k = h
    page_read_same (blocked, t) sends again h k = h
    page_read_same (ok page, t) sends again h k =
        elim page.ids
          as (λ ids.
            SameTables s
              (page_read cfg ttl file_id (ok (record page { ids = ids }), t) sends again).1) [
                | [] ↦ h
                | id ∷ rest ↦
                    page_sent_same (send_jobs (index_by key_uuid page.keys []) page.chunks sends)
                      (last_or id rest) again t h k
              ]

    produce_pages_same : (fuel : ℕ) → Continues (produce_pages cfg ttl file_id fuel)
    unfolding produce_pages Continues
    produce_pages_same zero cursor sends t h = h
    produce_pages_same (suc fuel) cursor sends t h =
        page_read_same (read_page cfg ttl file_id cursor t) sends _
          ((read_page-Keeps cursor).at t h) (produce_pages_same fuel)

    cursor_loaded_same :
        (p : Result (Option Uuid) × System)
        (go : Uuid → System → (Result (Unit {0}) × List RotationJob) × System)
        → SameTables s p.1
        → ((cursor : Uuid) (t : System) → SameTables s t → SameTables s (go cursor t).1)
        → SameTables s (cursor_loaded cfg ttl file_id p go).1
    cursor_loaded_same (err e, t) go h k = h
    cursor_loaded_same (blocked, t) go h k = h
    cursor_loaded_same (ok c, t) go h k = k (or_nil cfg ttl file_id c) t h

    pub produce-SameTables :
        (fuel : ℕ) (sends : List Send) → SameTables s (produce cfg ttl file_id fuel sends s).1
    unfolding produce load_cursor Continues
    produce-SameTables fuel sends =
        cursor_loaded_same (wrapping at_load_cursor (load_cursor file_id) s) _
          ((Keeps-wrapping at_load_cursor _
              (Keeps-query spent (λ t. ok (find_cursor t.now file_id t.cursors)))).at
            s (SameTables-refl s))
          (λ c t h. produce_pages_same fuel c sends t h)
