-- ===== src/Rotation.antt =====
-- internal/service/cipher_rotation.go: which chunks a rotation takes, what a worker makes of one,
-- and what it deletes at the end.
pub mod Tables
pub mod Reseal
pub mod Cleanup
pub mod Produce
pub mod Run
use file_cipher_core.Prelude.{
  ℕ, zero, suc, ◌+◌, Bool, true, false, Option, none, some, List, [], ◌∷◌, ◌==◌, if◌then◌else◌,
}
use file_cipher_core.Entity.{Uuid, nil_uuid, Bytes, ChunkData, ChunkKey, FlushItem}
use file_cipher_core.Env.{
  Error, canceled, message, desync, load_cursor, get_chunk_uuids, get_latest_data as at_latest_data,
  get_latest_keys as at_latest_keys, delete_old_data as at_delete_old_data,
  delete_old_keys as at_delete_old_keys, decrypt_chunk, generate_key as at_generate_key,
  encrypt_chunk, Result, ok, err, blocked, System, Exec, ◌>>=◌, ◌>>◌, pure, lift, wrapped, wrapping,
}
use file_cipher_core.Crypto.{Gcm, generate_key, encrypt, decrypt}
use file_cipher_core.Item.{new_item}
use file_cipher_core.Retry.{RetryConfig, retry_do}
use file_cipher_core.Repository.Tables.{
  get_chunk_uuids_by_file_id, get_latest_data, get_latest_keys, delete_old_data, delete_old_keys,
}
use file_cipher_core.Repository.Sql.Uuids.{last_or}

pub record RotationJob : Type 0 where
  pub current : ChunkData
  pub old_key : ChunkKey

pub record RotatorConfig : Type 0 where
  pub page_size : ℕ
  pub workers : ℕ
  pub retry : RetryConfig

-- What rotationWorker does with one job, up to the send.
module _ (g : Gcm) where
  unfoldable pub rotate_job : RotationJob → Exec FlushItem
  rotate_job j = do
    let uuid = j.current.uuid
    plain ← lift (
        wrapped (decrypt_chunk uuid) (decrypt g j.old_key.key j.current.ciphertext j.current.nonce))
    new_key ← wrapping (at_generate_key uuid) generate_key
    (ciphertext, nonce) ← wrapping (encrypt_chunk uuid) (encrypt g new_key plain)
    now ← (λ s. (ok s.now, s))
    pure (new_item uuid j.current.file_id (j.current.version + 1) new_key ciphertext nonce now)

module _ (cfg : RotatorConfig) (file_id : Uuid) where
  -- deleteOldVersions, whose loop takes `fuel` pages at most.
  unfoldable pub delete_pages : ℕ → Uuid → Exec (Unit {0})
  delete_pages zero cursor s = (blocked, s)
  delete_pages (suc fuel) cursor s =
      (wrapping get_chunk_uuids (get_chunk_uuids_by_file_id file_id cursor cfg.page_size) >>= λ ids.
      elim ids [
        | [] ↦ pure tt
        | id ∷ rest ↦
            wrapping at_delete_old_data (delete_old_data (id ∷ rest))
            >> wrapping at_delete_old_keys (delete_old_keys (id ∷ rest))
            >> delete_pages fuel (last_or id rest)
      ])
        s

  unfoldable pub delete_old_versions : ℕ → Exec (Unit {0})
  unfolding delete_pages
  delete_old_versions fuel = delete_pages fuel nil_uuid
