-- ===== src/Repository/Tables.antt =====
-- key_repository.go, data_repository.go and pgerr.go: the methods, each one statement on its table.
use file_cipher_core.Prelude.{
  ℕ, Bool, false, ◌&&◌, Option, none, some, List, map, keep, take, ltb, ◌==◌, if◌then◌else◌,
}
use mathlib.Core.Option
use file_cipher_core.Entity.{Uuid, ChunkData, ChunkKey}
use file_cipher_core.Env.{
  Error, no_rows, postgres, unique_violation, Result, ok, err, blocked, System, Exec, query, commit,
}
use file_cipher_core.Repository.Sql.{latest, at_version, delete_old, copy_from, distinct_uuids}

abbrev pub key_uuid : ChunkKey → ℕ
key_uuid k = k.uuid

abbrev pub key_version : ChunkKey → ℕ
key_version k = k.version

abbrev pub data_uuid : ChunkData → ℕ
data_uuid d = d.uuid

abbrev pub data_version : ChunkData → ℕ
data_version d = d.version

-- The columns that the SELECTs on chunk_data read: created_at keeps its zero value.
abbrev pub scan_data : ChunkData → ChunkData
scan_data d = record d { created_at = 0 }

-- pgx.ErrNoRows
abbrev pub row {ℓ} : {A : Type ℓ} → Option A → Result A
row none = err no_rows
row (some a) = ok a

unfoldable pub get_latest_keys : List Uuid → Exec (List ChunkKey)
unfolding latest
get_latest_keys ids = query λ s. ok (latest key_uuid key_version ids s.keys)

unfoldable pub get_key_by_version : Uuid → ℕ → Exec ChunkKey
get_key_by_version id version = query λ s. row (at_version key_uuid key_version id version s.keys)

abbrev pub deleting_keys : List Uuid → Exec (Unit {0})
deleting_keys ids s = (ok tt, record s { keys = delete_old key_uuid key_version ids s.keys })

unfoldable pub delete_old_keys : List Uuid → Exec (Unit {0})
delete_old_keys ids = commit (deleting_keys ids)

unfoldable pub get_latest_data : List Uuid → Exec (List ChunkData)
get_latest_data ids = query λ s. ok (map scan_data (latest data_uuid data_version ids s.chunks))

unfoldable pub get_data_by_version : Uuid → ℕ → Exec ChunkData
get_data_by_version id version =
    query λ s. row (Option.map scan_data (at_version data_uuid data_version id version s.chunks))

-- SELECT DISTINCT uuid … WHERE file_id = $1 AND uuid > $2 ORDER BY uuid ASC LIMIT $3
unfoldable pub page_of : Uuid → Uuid → ℕ → List ChunkData → List Uuid
page_of file_id after_uuid limit rows = take limit (
    distinct_uuids (map data_uuid (keep (λ d. d.file_id == file_id && ltb after_uuid d.uuid) rows)))

unfoldable pub get_chunk_uuids_by_file_id : Uuid → Uuid → ℕ → Exec (List Uuid)
get_chunk_uuids_by_file_id file_id after_uuid limit =
    query λ s. ok (page_of file_id after_uuid limit s.chunks)

abbrev pub deleting_data : List Uuid → Exec (Unit {0})
deleting_data ids s = (ok tt, record s { chunks = delete_old data_uuid data_version ids s.chunks })

unfoldable pub delete_old_data : List Uuid → Exec (Unit {0})
delete_old_data ids = commit (deleting_data ids)

-- errors.As(err, &pgErr) unwraps.
unfoldable pub is_unique_violation : Error → Bool
is_unique_violation (postgres code) = code == unique_violation
is_unique_violation (Error.wrap site e) = is_unique_violation e
is_unique_violation _ = false

-- `if isUniqueViolation(err) { return nil }; return err`
unfoldable pub ignore_duplicates : Result (Unit {0}) → Result (Unit {0})
unfolding is_unique_violation
ignore_duplicates (ok u) = ok u
ignore_duplicates blocked = blocked
ignore_duplicates (err e) = if is_unique_violation e then ok tt else err e

-- CopyFrom into the table `table` of the state, and what SaveKeys and SaveData make of its error.
module _ {A : Type 0} (uuid version : A → ℕ) (table : System → List A)
    (put : List A → System → System) where
  abbrev pub copied : Option (List A) → Exec (Unit {0})
  copied none s = (err (postgres unique_violation), s)
  copied (some rows) s = (ok tt, put rows s)

  unfoldable pub save_rows : List A → Exec (Unit {0})
  unfolding ignore_duplicates
  save_rows rows s =
      let (r, s') = commit (λ t. copied (copy_from uuid version rows (table t)) t) s in
      (ignore_duplicates r, s')

abbrev pub put_keys : List ChunkKey → System → System
put_keys rows s = record s { keys = rows }

abbrev pub put_chunks : List ChunkData → System → System
put_chunks rows s = record s { chunks = rows }

unfoldable pub save_keys : List ChunkKey → Exec (Unit {0})
unfolding save_rows
save_keys = save_rows key_uuid key_version (λ s. s.keys) put_keys

unfoldable pub save_data : List ChunkData → Exec (Unit {0})
unfolding save_rows
save_data = save_rows data_uuid data_version (λ s. s.chunks) put_chunks
