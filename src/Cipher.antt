-- ===== src/Cipher.antt =====
-- internal/service/cipher_file.go: the reader that cuts the upload into chunks, and the worker
-- that encrypts one chunk.
pub mod Split
pub mod Returns
pub mod Encrypt
use file_cipher_core.Prelude.{
  ℕ, zero, suc, ◌+◌, Bool, true, false, Option, none, some, List, [], ◌∷◌, take, drop, length, ltb,
  ◌==◌, if◌then◌else◌,
}
use file_cipher_core.Entity.{Uuid, Bytes, FlushItem}
use file_cipher_core.Env.{
  Error, canceled, io_eof, io_unexpected_eof, wrap, new_chunk_uuid, read_chunk,
  generate_key as at_generate_key, encrypt_chunk, Result, ok, err, blocked, System, Exec, ◌>>=◌,
  pure, wrapping,
}
use file_cipher_core.Item.{new_item}
use file_cipher_core.Crypto.{Gcm, generate_key, encrypt}

pub record EncryptJob : Type 0 where
  pub file_id : Uuid
  pub chunk_id : Uuid
  pub plaintext : Bytes

-- An io.Reader: the bytes that it still gives, and the error that ends it, where none is io.EOF. The
-- body of a request that breaks off before its Content-Length ends with io.ErrUnexpectedEOF.
pub record Source : Type 0 where
  pub bytes : Bytes
  pub failure : Option Error

pub data ReadEnd : Type 0 where
  full eof unexpected_eof : ReadEnd
  failed : Error → ReadEnd

-- io.ReadFull into a buffer of `size` bytes: how it ends; what it reads is `take size`.
unfoldable pub read_end : ℕ → Source → ReadEnd
read_end size src =
    let n = length src.bytes in
    if ltb n size
    then elim src.failure [ some e ↦ failed e | none ↦ if n == 0 then eof else unexpected_eof ]
    else full

-- errors.Is(err, io.EOF) || errors.Is(err, io.ErrUnexpectedEOF); errors.Is unwraps.
unfoldable pub is_end : Error → Bool
is_end io_eof = true
is_end io_unexpected_eof = true
is_end (Error.wrap site e) = is_end e
is_end _ = false

-- What the select of the sending side takes.
pub data Send : Type 0 where
  sent done : Send

-- The uuids that uuid.NewV7 returns, as far as it does: an empty list is its error.
abbrev pub Supply : Type 0
Supply = List Uuid

-- The loop of `read`, whose result comes with the jobs that it has sent. `fuel` bounds its rounds,
-- `sends` are the choices of its select; where either runs out, it has not returned.
module _ (size : ℕ) (file_id : Uuid) where
  abbrev pub job : Uuid → Bytes → EncryptJob
  job chunk_id plaintext = record { file_id = file_id; chunk_id = chunk_id; plaintext = plaintext }

  abbrev pub cons_job :
      EncryptJob → Result (Unit {0}) × List EncryptJob → Result (Unit {0}) × List EncryptJob
  cons_job j (r, jobs) = (r, j ∷ jobs)

  -- `if err != nil`, behind the select
  unfoldable pub ended :
      ReadEnd → Result (Unit {0}) × List EncryptJob → Result (Unit {0}) × List EncryptJob
  unfolding is_end
  ended full rest = rest
  ended eof rest = (ok tt, [])
  ended unexpected_eof rest = (ok tt, [])
  ended (failed e) rest = (if is_end e then ok tt else err (wrap read_chunk e), [])

  -- One round: the bytes read, how the reading ended, and the rest of the loop.
  unfoldable pub read_round :
      Bytes
      → ReadEnd
      → Supply
      → List Send
      → (Supply → List Send → Result (Unit {0}) × List EncryptJob)
      → Result (Unit {0}) × List EncryptJob
  unfolding ended
  read_round [] end uuids sends again = ended end (again uuids sends)
  read_round (b ∷ bs) end [] sends again = (err (wrap new_chunk_uuid (Error.external 0)), [])
  read_round (b ∷ bs) end (u ∷ us) [] again = (blocked, [])
  read_round (b ∷ bs) end (u ∷ us) (done ∷ ss) again = (err canceled, [])
  read_round (b ∷ bs) end (u ∷ us) (sent ∷ ss) again =
      cons_job (job u (b ∷ bs)) (ended end (again us ss))

  unfoldable pub read : ℕ → Supply → List Send → Source → Result (Unit {0}) × List EncryptJob
  unfolding read_round
  read zero uuids sends src = (blocked, [])
  read (suc fuel) uuids sends src =
      read_round (take size src.bytes) (read_end size src) uuids sends
        (λ us ss. read fuel us ss (record src { bytes = drop size src.bytes }))

-- What encryptWorker does with one job, up to the send.
module _ (g : Gcm) where
  unfoldable pub encrypt_job : EncryptJob → Exec FlushItem
  encrypt_job j = do
    key ← wrapping (at_generate_key j.chunk_id) generate_key
    (ciphertext, nonce) ← wrapping (encrypt_chunk j.chunk_id) (encrypt g key j.plaintext)
    now ← (λ s. (ok s.now, s))
    pure (new_item j.chunk_id j.file_id 1 key ciphertext nonce now)
