-- ===== src/Cipher/Returns.antt =====
-- When `read` of internal/service/cipher_file.go returns.
use file_cipher_core.Prelude.{
  ℕ, zero, suc, ◌≤◌, ◌<◌, ◌≡◌, refl, ap, true, some, List, [], ◌∷◌, take, length, length-take,
  length-drop, All, arith,
}
use file_cipher_core.Entity.{Bytes}
use file_cipher_core.Env.{Error, Result, ok}
use file_cipher_core.Cipher.{
  EncryptJob, Source, ReadEnd, full, eof, unexpected_eof, failed, is_end, read_end, ended,
  read_round, Send, sent, done, Supply, read,
}
use file_cipher_core.Cipher.Split.{at_end, EndFacts, read_end-EndFacts, rest_of}

-- Enough uuids and sends for a piece of every byte.
pub record Served (n : ℕ) (uuids : Supply) (sends : List Send) : Type 0 where
  pub numbers : n ≤ length uuids
  pub receivers : n ≤ length sends
  pub taken : All (λ c. c ≡ sent) sends

module _ (size file_id : ℕ) (src : Source) where
  ends : (e : Error) → at_end src.failure ≡ true → src.failure ≡ some e → is_end e ≡ true
  ends e n f = rw f at n

  round_returns :
      (chunk : Bytes) (end : ReadEnd) (uuids : Supply) (sends : List Send)
      (again : Supply → List Send → Result (Unit {0}) × List EncryptJob)
      → 0 < size
      → at_end src.failure ≡ true
      → chunk ≡ take size src.bytes
      → EndFacts size file_id src end
      → Served (length src.bytes) uuids sends
      → ((us : Supply) (ss : List Send)
          → length (rest_of size src).bytes < length src.bytes
          → Served (length (rest_of size src).bytes) us ss
          → (again us ss).0 ≡ ok tt)
      → (read_round size file_id chunk end uuids sends again).0 ≡ ok tt
  unfolding read_round ended
  round_returns [] full uuids sends again p n c f v ih =
      absurd (omega (arith, ap (length {0}) c, length-take {0} size src.bytes))
  round_returns [] eof uuids sends again p n c f v ih = refl
  round_returns [] unexpected_eof uuids sends again p n c f v ih = refl
  round_returns [] (failed e) uuids sends again p n c f v ih = rw (ends e n f.1) refl
  round_returns (b ∷ bs) end [] sends again p n c f v ih =
      absurd (omega (arith, v.numbers, ap (length {0}) c, length-take {0} size src.bytes))
  round_returns (b ∷ bs) end (u ∷ us) [] again p n c f v ih =
      absurd (omega (arith, v.receivers, ap (length {0}) c, length-take {0} size src.bytes))
  round_returns (b ∷ bs) end (u ∷ us) (done ∷ ss) again p n c f v ih = cc (v.taken.0)
  round_returns (b ∷ bs) eof (u ∷ us) (sent ∷ ss) again p n c f v ih = refl
  round_returns (b ∷ bs) unexpected_eof (u ∷ us) (sent ∷ ss) again p n c f v ih = refl
  round_returns (b ∷ bs) (failed e) (u ∷ us) (sent ∷ ss) again p n c f v ih = rw (ends e n f.1) refl
  round_returns (b ∷ bs) full (u ∷ us) (sent ∷ ss) again p n c f v ih =
      ih us ss (omega (arith, length-drop {0} size src.bytes)) (record {
        numbers = omega (arith, v.numbers, length-drop {0} size src.bytes);
        receivers = omega (arith, v.receivers, length-drop {0} size src.bytes);
        taken = v.taken.1;
      })

module _ (size file_id : ℕ) where
  -- With a positive chunk size, a source that ends with io.EOF or io.ErrUnexpectedEOF, uuids and a
  -- receiver for every piece, `read` returns nil; more rounds than the upload has bytes are enough.
  pub read_returns :
      (fuel : ℕ) (uuids : Supply) (sends : List Send) (src : Source)
      → 0 < size
      → at_end src.failure ≡ true
      → length src.bytes < fuel
      → Served (length src.bytes) uuids sends
      → (read size file_id fuel uuids sends src).0 ≡ ok tt
  unfolding read
  read_returns zero uuids sends src p n enough v = absurd (omega arith)
  read_returns (suc fuel) uuids sends src p n enough v =
      round_returns size file_id src (take size src.bytes) (read_end size src) uuids sends _ p n
        refl (read_end-EndFacts size file_id src src.bytes (read_end size src) refl refl) v
        λ us ss shorter w. read_returns fuel us ss (rest_of size src) p n (omega arith) w
