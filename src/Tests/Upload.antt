-- ===== src/Tests/Upload.antt =====
-- Cutting and sealing of small uploads.
use file_cipher_core.Prelude.{◌≡◌, refl, none, some, List, [], ◌∷◌, ◌++◌, arith}
use file_cipher_core.Env.{ok, err, external, io_unexpected_eof, wrap, read_chunk, System}
use file_cipher_core.Crypto.{encrypt, decrypt, generate_key}
use file_cipher_core.Item.{Seals, new_item}
use file_cipher_core.Cipher.{
  EncryptJob, Source, sent, read, is_end, read_end, ended, read_round, encrypt_job,
}
use file_cipher_core.Cipher.Split.{Cuts, read-Cuts}
use file_cipher_core.Cipher.Returns.{Served, read_returns}
use file_cipher_core.Cipher.Encrypt.{decrypt-encrypt, encrypt_job-opens}
use file_cipher_core.Tests.{tag, toy, toy-IsGcm, key_bytes, nonce_bytes, world}

abbrev upload : Source
upload = record { bytes = 1 ∷ 2 ∷ 3 ∷ 4 ∷ 5 ∷ []; failure = none }

abbrev pieces : List EncryptJob
pieces =
    record { file_id = 7; chunk_id = 11; plaintext = 1 ∷ 2 ∷ [] }
    ∷ record { file_id = 7; chunk_id = 12; plaintext = 3 ∷ 4 ∷ [] }
    ∷ record { file_id = 7; chunk_id = 13; plaintext = 5 ∷ [] }
    ∷ []

read-Cuts_example : Cuts 2 7 (11 ∷ 12 ∷ 13 ∷ []) upload pieces
unfolding read read_end read_round
read-Cuts_example = read-Cuts 2 7 6 (11 ∷ 12 ∷ 13 ∷ []) (sent ∷ sent ∷ sent ∷ []) upload pieces refl

-- A body that breaks off is read like one that ends; another error is read's.
broken_off :
    read 2 7 6
      (11 ∷ 12 ∷ 13 ∷ [])
      (sent ∷ sent ∷ sent ∷ [])
      (record upload { failure = some io_unexpected_eof })
    ≡ (ok tt, pieces)
unfolding read read_end read_round ended is_end
broken_off = refl

unreadable :
    read 2 7 6
      (11 ∷ 12 ∷ 13 ∷ [])
      (sent ∷ sent ∷ sent ∷ [])
      (record upload { failure = some (external 1) })
    ≡ (err (wrap read_chunk (external 1)), pieces)
unfolding read read_end read_round ended is_end
unreadable = refl

served : Served 5 (11 ∷ 12 ∷ 13 ∷ 14 ∷ 15 ∷ []) (sent ∷ sent ∷ sent ∷ sent ∷ sent ∷ [])
served = record {
  numbers = omega arith;
  receivers = omega arith;
  taken = (refl, (refl, (refl, (refl, (refl, tt)))));
}

abbrev cut_off : Source
cut_off = record upload { failure = some io_unexpected_eof }

read_returns_example :
    (read 2 7 6 (11 ∷ 12 ∷ 13 ∷ 14 ∷ 15 ∷ []) (sent ∷ sent ∷ sent ∷ sent ∷ sent ∷ []) cut_off).0
    ≡ ok tt
unfolding is_end
read_returns_example =
    read_returns 2 7 6 (11 ∷ 12 ∷ 13 ∷ 14 ∷ 15 ∷ []) (sent ∷ sent ∷ sent ∷ sent ∷ sent ∷ []) cut_off
      (omega arith) refl (omega arith) served

-- After the key's 32 bytes the nonce takes bytes 32 to 43.
abbrev keyed : System
keyed = record world { drawn = 32 }

decrypt-encrypt_example : decrypt toy key_bytes (tag ++ 9 ∷ []) nonce_bytes ≡ ok (9 ∷ [])
unfolding encrypt
decrypt-encrypt_example =
    decrypt-encrypt toy toy-IsGcm key_bytes (9 ∷ []) keyed (tag ++ 9 ∷ []) nonce_bytes
      (record keyed { drawn = 44 }) refl refl

abbrev chunk_job : EncryptJob
chunk_job = record { file_id = 7; chunk_id = 3; plaintext = 9 ∷ [] }

encrypt_job-opens_example :
    Seals toy 3 7 1 (9 ∷ []) (new_item 3 7 1 key_bytes (tag ++ 9 ∷ []) nonce_bytes 10)
unfolding encrypt_job generate_key encrypt
encrypt_job-opens_example =
    encrypt_job-opens toy toy-IsGcm chunk_job world
      (new_item 3 7 1 key_bytes (tag ++ 9 ∷ []) nonce_bytes 10) (record world { drawn = 44 }) refl
