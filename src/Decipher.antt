-- ===== src/Decipher.antt =====
-- internal/service/decipher_file.go: a file's chunks, page by page, decrypted into the response.
pub mod Rows
pub mod Readable
pub mod Complete
pub mod Sends
pub mod Faulty
pub mod Prefix
pub mod Untouched
use file_cipher_core.Prelude.{
  ℕ, zero, suc, ◌+◌, min, Bool, true, Option, none, some, List, [], ◌∷◌, ◌++◌, take, not, ◌==◌,
  if◌then◌else◌, length,
}
use file_cipher_core.Entity.{Uuid, nil_uuid, Bytes, ChunkData, ChunkKey, zero_data, zero_key}
use file_cipher_core.Env.{
  Error, ids_not_found, message, wrap, get_chunk_uuids, get_latest_data as at_latest_data,
  get_latest_keys as at_latest_keys, get_data_version, get_key_version, data_not_found,
  key_not_found, version_mismatch, decrypt_chunk as at_decrypt_chunk, write_chunk, Result, ok, err,
  blocked, Fault, answered, refused, broken, System, Exec, ◌>>=◌, ◌>>◌, pure, raise, lift, wrapped,
  wrapping, ctx_err, spend, head_outcome,
}
use file_cipher_core.Crypto.{Gcm, decrypt}
use file_cipher_core.Retry.{RetryConfig, retry_do}
use file_cipher_core.Repository.Tables.{
  get_chunk_uuids_by_file_id, get_latest_data, get_latest_keys, get_data_by_version,
  get_key_by_version,
}
use file_cipher_core.Repository.Sql.Uuids.{last_or}

pub record DecipherConfig : Type 0 where
  pub page_size : ℕ
  pub retry : RetryConfig

-- A Go map from uuids: the last entry for a key wins, a missing key reads as the zero value.
module _ {A : Type 0} (uuid : A → ℕ) where
  unfoldable pub index_by : List A → List A → List A
  index_by [] m = m
  index_by (x ∷ l) m = index_by l (x ∷ m)

  unfoldable pub get_or_zero : A → List A → Uuid → A
  get_or_zero zero_value [] id = zero_value
  get_or_zero zero_value (x ∷ m) id =
      let rest = get_or_zero zero_value m id in if uuid x == id then x else rest

-- The contract of io.Writer: everything is written, or a prefix and an error comes back.
abbrev pub written : Fault → Bytes → Exec (Unit {0})
written answered p s = (ok tt, record s { output = s.output ++ p })
written (refused e) p s = (err e, s)
written (broken n e) p s = (err e, record s { output = s.output ++ take n p })

-- trackingWriter.Write: the response counts as written before the bytes are.
unfoldable pub write_out : Bytes → Exec (Unit {0})
write_out p s = written (head_outcome s.script).fault p (record (spend s) { wrote = true })

unfoldable pub get_consistent_version : Uuid → ChunkData → ChunkKey → Exec (ChunkData × ChunkKey)
get_consistent_version id chunk key = do
  let version = min chunk.version key.version
  chunk' ← wrapping (get_data_version id) (get_data_by_version id version)
  key' ← wrapping (get_key_version id) (get_key_by_version id version)
  pure (chunk', key')

module _ (g : Gcm) where
  unfoldable pub decrypt_chunk : Uuid → ChunkData → ChunkKey → Result Bytes
  decrypt_chunk id chunk key =
      if chunk.uuid == nil_uuid
      then err (message (data_not_found id))
      else if key.uuid == nil_uuid
      then err (message (key_not_found id))
      else if not (key.version == chunk.version)
      then err (message (version_mismatch id))
      else wrapped (at_decrypt_chunk id) (decrypt g key.key chunk.ciphertext chunk.nonce)

  -- The body of the loop over one page.
  unfoldable pub stream_chunk : Uuid → ChunkData → ChunkKey → Exec (Unit {0})
  stream_chunk id chunk key = do
    (chunk', key') ←
        (if not (chunk.version == key.version)
          then get_consistent_version id chunk key
          else pure (chunk, key))
    plain ← lift (decrypt_chunk id chunk' key')
    wrapping (write_chunk id) (write_out plain)

  unfoldable pub stream_ids : List ChunkData → List ChunkKey → List Uuid → Exec (Unit {0})
  unfolding stream_chunk get_or_zero
  stream_ids chunk_by_uuid key_by_uuid [] = pure tt
  stream_ids chunk_by_uuid key_by_uuid (id ∷ ids) = do
    stream_chunk id (get_or_zero (λ c. c.uuid) zero_data chunk_by_uuid id)
        (get_or_zero (λ k. k.uuid) zero_key key_by_uuid id)
    stream_ids chunk_by_uuid key_by_uuid ids

  unfoldable pub stream_page : DecipherConfig → List Uuid → Exec (Unit {0})
  unfolding stream_ids index_by
  stream_page cfg ids = do
    chunks ← wrapping at_latest_data (retry_do cfg.retry (get_latest_data ids))
    keys ← wrapping at_latest_keys (retry_do cfg.retry (get_latest_keys ids))
    stream_ids (index_by (λ c. c.uuid) chunks []) (index_by (λ k. k.uuid) keys []) ids

  -- The loop of StreamFile: `fuel` bounds the pages, `total` counts the chunks so far.
  unfoldable pub stream_pages : ℕ → DecipherConfig → Uuid → Uuid → ℕ → Exec (Unit {0})
  unfolding stream_page
  stream_pages zero cfg file_id cursor total s = (blocked, s)
  stream_pages (suc fuel) cfg file_id cursor total s = elim (ctx_err s) [
    | some e ↦ (err e, s)
    | none ↦
        (wrapping get_chunk_uuids
              (retry_do cfg.retry (get_chunk_uuids_by_file_id file_id cursor cfg.page_size))
            >>= λ ids. elim ids [
              | [] ↦ if total == 0 then raise ids_not_found else pure tt
              | id ∷ rest ↦
                  stream_page cfg (id ∷ rest)
                  >> stream_pages fuel cfg file_id (last_or id rest) (total + length (id ∷ rest))
            ])
          s
  ]

  unfoldable pub stream_file : ℕ → DecipherConfig → Uuid → Exec (Unit {0})
  unfolding stream_pages
  stream_file fuel cfg file_id = stream_pages fuel cfg file_id nil_uuid 0
