-- ===== src/Tests.antt =====
-- A small world for the tests: a cipher that only prefixes a tag, and a file of two chunks.
mod Download
mod Upload
mod Stored
mod Repeats
mod Rotated
mod Trip
mod Pipeline
mod Messages
mod Answers
mod Group
mod Settings
mod Worker
use file_cipher_core.Prelude.{
  ℕ, ◌+◌, ◌≡◌, refl, true, false, none, some, [], ◌∷◌, ◌++◌, drop, length, arith,
}
use file_cipher_core.Entity.{Uuid, Bytes, ChunkData, ChunkKey, FlushItem, PendingItem}
use file_cipher_core.Env.{System}
use file_cipher_core.Crypto.{Gcm, IsGcm, random_bytes}
use file_cipher_core.Retry.{RetryConfig, pos}

abbrev pub tag : Bytes
tag = 0 ∷ 0 ∷ 0 ∷ 0 ∷ 0 ∷ 0 ∷ 0 ∷ 0 ∷ 0 ∷ 0 ∷ 0 ∷ 0 ∷ 0 ∷ 0 ∷ 0 ∷ 0 ∷ []

abbrev pub toy : Gcm
toy = record { seal = λ key nonce plain. tag ++ plain; unseal = λ key nonce c. some (drop 16 c) }

pub toy-IsGcm : IsGcm toy
toy-IsGcm = record {
  unseal-seal = λ key nonce plain. refl;
  length-seal = λ key nonce plain. omega arith;
}

abbrev pub key_bytes : Bytes
key_bytes = random_bytes (λ i. i) 0 32

abbrev pub nonce_bytes : Bytes
nonce_bytes = random_bytes (λ i. i) 32 12

abbrev pub key_row : Uuid → ℕ → ChunkKey
key_row id version = record { uuid = id; key = key_bytes; version = version; created_at = 5 }

abbrev pub data_row : Uuid → ℕ → ChunkData
data_row id version = record {
  uuid = id;
  file_id = 7;
  ciphertext = tag ++ id ∷ [];
  nonce = nonce_bytes;
  version = version;
  created_at = 5;
}

abbrev pub entry : ℕ → Uuid → PendingItem
entry id uuid = record { id = id; item = record { key = key_row uuid 1; chunk = data_row uuid 1 } }

abbrev pub retries : RetryConfig
retries = record { attempts = pos 2; backoff = 1 }

-- The key of chunk 2 has been rotated, its data not yet.
abbrev pub world : System
world = record {
  now = 10;
  cancel_at = none;
  timer_first = λ _. true;
  script = [];
  random = λ i. i;
  drawn = 0;
  keys = key_row 2 2 ∷ key_row 2 1 ∷ key_row 1 1 ∷ [];
  chunks = data_row 2 1 ∷ data_row 1 1 ∷ [];
  stream = [];
  next_id = 1;
  last_delivered = 0;
  pel = [];
  cursors = [];
  output = [];
  wrote = false;
}
