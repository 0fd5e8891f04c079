-- ===== src/Tests/Rotated.antt =====
-- A rotation of one chunk, and clean-ups of the small world.
use file_cipher_core.Prelude.{◌≡◌, refl, some, List, [], ◌∷◌, ◌++◌, arith}
use file_cipher_core.Entity.{Bytes}
use file_cipher_core.Env.{ok, System}
use file_cipher_core.Crypto.{encrypt, decrypt, generate_key}
use file_cipher_core.Item.{Seals, new_item}
use file_cipher_core.Repository.Sql.{delete_old}
use file_cipher_core.Repository.Tables.{key_uuid, key_version, data_uuid, data_version}
use file_cipher_core.Decipher.Readable.{Readable}
use file_cipher_core.Rotation.{RotationJob, RotatorConfig, rotate_job, delete_old_versions}
use file_cipher_core.Rotation.Reseal.{rotate_job-reseals}
use file_cipher_core.Rotation.Cleanup.{delete_old_versions-Readable, cleanup_strands}
use file_cipher_core.Cipher.{sent}
use file_cipher_core.Repository.Sql.{distinct_uuids}
use file_cipher_core.Repository.Pages.{file_uuids}
use file_cipher_core.Repository.Cursors.{find_cursor}
use file_cipher_core.Rotation.Produce.{produce}
use file_cipher_core.Rotation.Produce.Jobs.{JobsFor}
use file_cipher_core.Rotation.Produce.Whole.{produce-JobsFor}
use file_cipher_core.Tests.{
  tag, toy, toy-IsGcm, key_bytes, nonce_bytes, key_row, data_row, retries, world,
}
use file_cipher_core.Tests.Download.{readable_1, plain}

abbrev chunk_1 : RotationJob
chunk_1 = record { current = data_row 1 1; old_key = key_row 1 1 }

rotate_job-reseals_example :
    (p : Bytes) × (decrypt toy key_bytes (tag ++ 1 ∷ []) nonce_bytes ≡ ok p)
    × Seals toy 1 7 2 p (new_item 1 7 2 key_bytes (tag ++ 1 ∷ []) nonce_bytes 10)
unfolding rotate_job generate_key encrypt decrypt
rotate_job-reseals_example =
    rotate_job-reseals toy toy-IsGcm chunk_1 world
      (new_item 1 7 2 key_bytes (tag ++ 1 ∷ []) nonce_bytes 10) (record world { drawn = 44 }) refl

abbrev config : RotatorConfig
config = record { page_size = 1; workers = 1; retry = retries }

delete_old_versions-Readable_example :
    Readable toy
      (delete_old_versions config 7 3 world).1.chunks
      (delete_old_versions config 7 3 world).1.keys
      1
      (plain 1)
unfolding readable_1
delete_old_versions-Readable_example =
    delete_old_versions-Readable toy config 7 3 1 (plain 1) world readable_1 refl

-- Before the clean-up chunk 2 is readable.
cleanup_strands_example :
    ¬ Readable toy
      (delete_old data_uuid data_version (1 ∷ 2 ∷ []) world.chunks)
      (delete_old key_uuid key_version (1 ∷ 2 ∷ []) world.keys)
      2
      (plain 2)
cleanup_strands_example =
    cleanup_strands toy (1 ∷ 2 ∷ []) 2 (data_row 2 1) (key_row 2 2) (plain 2) world.chunks
      world.keys refl refl refl (omega arith)

-- The cursor stands behind chunk 1.
abbrev resumed : System
resumed = record world { cursors = record { op = 7; last = 1; expires = some 20 } ∷ [] }

produce-JobsFor_example :
    (jobs : List RotationJob) × (t : System) × (produce config 60 7 2 (sent ∷ []) resumed
      ≡ ((ok tt, jobs), t))
    × JobsFor resumed.chunks resumed.keys (2 ∷ []) jobs
unfolding file_uuids distinct_uuids find_cursor
produce-JobsFor_example =
    produce-JobsFor config 60 7 2 0 refl refl 2 (sent ∷ []) resumed (2 ∷ []) refl refl (omega arith)
      (refl, tt) (omega arith) ((key_row 2 2, refl), tt)
