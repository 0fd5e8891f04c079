-- ===== src/Tests/Pipeline.antt =====
-- The upload of Trip on its way through the worker of the stream.
use file_cipher_core.Prelude.{ℕ, ◌+◌, ◌≡◌, refl, inl, true, none, List, [], ◌∷◌, ◌++◌, arith}
use file_cipher_core.Entity.{Uuid, Bytes, ChunkData, ChunkKey, FlushItem, PendingItem}
use file_cipher_core.Env.{ok, external, broken, System}
use file_cipher_core.Crypto.{random_bytes, encrypt, generate_key}
use file_cipher_core.Item.{new_item}
use file_cipher_core.Retry.{retry_do, retry_rounds, retry_more, settle, sleep_ctx}
use file_cipher_core.Cipher.{sent, read, read_end, read_round, encrypt_job}
use file_cipher_core.Workers.{send_item, worker, encrypt_worker}
use file_cipher_core.Repository.Sql.{copy_from, has_key}
use file_cipher_core.Repository.Tables.{
  save_keys, save_data, save_rows, ignore_duplicates, is_unique_violation,
}
use file_cipher_core.Repository.Stream.{stored, ack}
use file_cipher_core.Pending.{PendingWorkerConfig, Fork, first_error, write_both, process}
use file_cipher_core.Pending.Process.{Delivered}
use file_cipher_core.Decipher.{stream_file}
use file_cipher_core.Decipher.Complete
use file_cipher_core.Roundtrip.Pipeline.{Passed, pipeline_keeps_file}
use file_cipher_core.Tests.{tag, toy, toy-IsGcm, retries, world}
use file_cipher_core.Tests.Download.{config}
use file_cipher_core.Tests.Trip.{upload, uploads}

-- An item whose key and nonce are the random bytes from `drawn` on.
abbrev made_from : ℕ → Uuid → Bytes → FlushItem
made_from drawn id plain = record {
  key = record { uuid = id; key = random_bytes (λ i. i) drawn 32; version = 1; created_at = 10 };
  chunk = record {
    uuid = id;
    file_id = 9;
    ciphertext = tag ++ plain;
    nonce = random_bytes (λ i. i) (drawn + 32) 12;
    version = 1;
    created_at = 10;
  };
}

abbrev item_11 : FlushItem
item_11 = made_from 0 11 (1 ∷ 2 ∷ [])

abbrev item_12 : FlushItem
item_12 = made_from 44 12 (3 ∷ [])

abbrev keys_after : List ChunkKey
keys_after = item_12.key ∷ item_11.key ∷ world.keys

abbrev chunks_after : List ChunkData
chunks_after = item_12.chunk ∷ item_11.chunk ∷ world.chunks

-- The COPY of the keys is committed, but its answer is lost.
abbrev lost_answer : Fork
lost_answer = record {
  keys_script = record { takes = 0; fault = broken 0 (external 1) } ∷ [];
  data_script = [];
  keys_cancel = none;
  data_cancel = none;
  keys_first = true;
}

abbrev settings : PendingWorkerConfig
settings = record {
  amount = 2;
  claim_interval = 4;
  claim_min_idle = 4;
  retry = retries;
  read_backoff = 1;
  read_backoff_max = 8;
}

abbrev entries : List PendingItem
entries = record { id = 1; item = item_11 } ∷ record { id = 2; item = item_12 } ∷ []

abbrev written : System
written = record world { now = 11; keys = keys_after; chunks = chunks_after }

delivered : Delivered lost_answer entries world
unfolding copy_from has_key is_unique_violation
delivered = record {
  keys = world.keys;
  keys' = keys_after;
  chunks = world.chunks;
  chunks' = chunks_after;
  new_keys = refl;
  new_chunks = refl;
  keys_before = inl refl;
  chunks_before = inl refl;
  honest_keys = refl;
  honest_data = refl;
}

unfoldable passed : Passed toy 9 upload world written
unfolding delivered read read_end read_round encrypt_worker worker send_item encrypt_job
    generate_key encrypt new_item stored process write_both first_error save_keys save_data
    save_rows ignore_duplicates is_unique_violation copy_from has_key ack retry_do retry_rounds
    retry_more settle sleep_ctx
passed = record {
  size = 2;
  rounds = 4;
  uuids = 11 ∷ 12 ∷ [];
  sends = sent ∷ sent ∷ [];
  jobs =
      record { file_id = 9; chunk_id = 11; plaintext = 1 ∷ 2 ∷ [] }
      ∷ record { file_id = 9; chunk_id = 12; plaintext = 3 ∷ [] }
      ∷ [];
  cut = refl;
  ascending = (omega arith, (omega arith, tt));
  takes = uploads;
  item_sends = sent ∷ sent ∷ [];
  before = world;
  after = record world { drawn = 88 };
  items = item_11 ∷ item_12 ∷ [];
  took = refl;
  encrypted = refl;
  entries = entries;
  carried = refl;
  settings = settings;
  fork = lost_answer;
  delivered = delivered;
  processed = refl;
  unknown_keys = (refl, (refl, tt));
  unknown_chunks = (refl, (refl, tt));
  unknown_file = (refl, (refl, tt));
}

pipeline_keeps_file_example :
    stream_file toy 3 config 9 written ≡ (ok tt, Complete.sent written (1 ∷ 2 ∷ 3 ∷ []))
unfolding passed
pipeline_keeps_file_example =
    pipeline_keeps_file toy toy-IsGcm 9 upload world written passed config 3 2
      (record { answers = refl; alive = refl }) (omega arith) refl (λ e. cc) (omega arith)
