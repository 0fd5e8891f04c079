-- ===== src/Tests/Trip.antt =====
-- An upload of three bytes, and its download.
use file_cipher_core.Prelude.{◌≡◌, refl, none, List, [], ◌∷◌, ◌++◌, arith}
use file_cipher_core.Entity.{Uuid, Bytes, FlushItem}
use file_cipher_core.Env.{ok, System}
use file_cipher_core.Crypto.{encrypt, generate_key}
use file_cipher_core.Item.{new_item}
use file_cipher_core.Cipher.{EncryptJob, Source, sent, read, read_end, read_round, encrypt_job}
use file_cipher_core.Repository.Sql.{copy_from, has_key}
use file_cipher_core.Repository.Stream.{stored}
use file_cipher_core.Decipher.{stream_file}
use file_cipher_core.Decipher.Complete
use file_cipher_core.Rotation.{RotationJob, rotate_job}
use file_cipher_core.Workers.{Take, job, closed, ctx_done, encrypt_worker, rotation_worker}
use file_cipher_core.Workers.Made.{Makes, taken, workers-Makes}
use file_cipher_core.Roundtrip.Download.{Uploaded, upload_download}
use file_cipher_core.Tests.{tag, toy, toy-IsGcm, key_bytes, nonce_bytes, key_row, data_row, world}
use file_cipher_core.Tests.Download.{config}

abbrev pub upload : Source
upload = record { bytes = 1 ∷ 2 ∷ 3 ∷ []; failure = none }

abbrev sealed : Uuid → Bytes → FlushItem
sealed id plain = record {
  key = record { uuid = id; key = key_bytes; version = 1; created_at = 10 };
  chunk = record {
    uuid = id;
    file_id = 9;
    ciphertext = tag ++ plain;
    nonce = nonce_bytes;
    version = 1;
    created_at = 10;
  };
}

abbrev after_upload : System
after_upload = record world {
  keys = (sealed 12 (3 ∷ [])).key ∷ (sealed 11 (1 ∷ 2 ∷ [])).key ∷ world.keys;
  chunks = (sealed 12 (3 ∷ [])).chunk ∷ (sealed 11 (1 ∷ 2 ∷ [])).chunk ∷ world.chunks;
}

unfoldable uploaded : Uploaded toy 9 upload after_upload
unfolding read read_end read_round encrypt_job generate_key encrypt new_item copy_from has_key
    stored
uploaded = record {
  size = 2;
  rounds = 4;
  uuids = 11 ∷ 12 ∷ [];
  sends = sent ∷ sent ∷ [];
  jobs =
      record { file_id = 9; chunk_id = 11; plaintext = 1 ∷ 2 ∷ [] }
      ∷ record { file_id = 9; chunk_id = 12; plaintext = 3 ∷ [] }
      ∷ [];
  cut = refl;
  ascending = (omega arith, (omega arith, tt));
  items = sealed 11 (1 ∷ 2 ∷ []) ∷ sealed 12 (3 ∷ []) ∷ [];
  encrypted = (
    (world, record world { drawn = 44 }, refl),
    ((world, record world { drawn = 44 }, refl), tt),
  );
  keys = world.keys;
  chunks = world.chunks;
  new_keys = refl;
  new_chunks = refl;
  unknown_keys = (refl, (refl, tt));
  unknown_chunks = (refl, (refl, tt));
  unknown_file = (refl, (refl, tt));
}

upload_download_example :
    stream_file toy 3 config 9 after_upload ≡ (ok tt, Complete.sent after_upload (1 ∷ 2 ∷ 3 ∷ []))
unfolding uploaded
upload_download_example =
    upload_download toy toy-IsGcm 9 upload after_upload uploaded config 3 2
      (record { answers = refl; alive = refl }) (omega arith) refl (λ e. cc) (omega arith)

abbrev pub uploads : List (Take EncryptJob)
uploads =
    job (record { file_id = 9; chunk_id = 11; plaintext = 1 ∷ 2 ∷ [] })
    ∷ job (record { file_id = 9; chunk_id = 12; plaintext = 3 ∷ [] })
    ∷ closed
    ∷ []

abbrev rotations : List (Take RotationJob)
rotations = job (record { current = data_row 1 1; old_key = key_row 1 1 }) ∷ ctx_done ∷ []

workers-Makes_example :
    Makes
      (encrypt_job toy)
      (taken (encrypt_job toy) uploads)
      (encrypt_worker toy uploads (sent ∷ sent ∷ []) world)
    × Makes
        (rotate_job toy)
        (taken (rotate_job toy) rotations)
        (rotation_worker toy rotations (sent ∷ sent ∷ []) world)
workers-Makes_example = workers-Makes toy (sent ∷ sent ∷ []) world uploads rotations
