-- ===== src/Cipher/Split.antt =====
-- The jobs of `read` of internal/service/cipher_file.go against the bytes of its source.
use file_cipher_core.Prelude.{
  ℕ, zero, suc, ◌≤◌, ◌<◌, ◌≡◌, refl, sym, ap, ap₂, ◌∙◌, Bool, true, Bool-cases, inl, inr, Option,
  none, some, List, [], ◌∷◌, ◌++◌, take, drop, length, take-append-drop, length-take, append-nil,
  arith,
}
use file_cipher_core.Entity.{Uuid, Bytes}
use file_cipher_core.Env.{Error, Result, ok}
use file_cipher_core.Cipher.{
  EncryptJob, Source, ReadEnd, full, eof, unexpected_eof, failed, is_end, read_end, ended,
  read_round, job, cons_job, Send, sent, done, Supply, read,
}

abbrev pub joined : List EncryptJob → Bytes
joined [] = []
joined (j ∷ jobs) = j.plaintext ++ joined jobs

-- Every piece has the chunk size but the last, which may be shorter and is not empty.
abbrev pub IsCut : ℕ → List EncryptJob → Type 0
IsCut size [] = Unit {0}
IsCut size (j ∷ []) = (0 < length j.plaintext) × (length j.plaintext ≤ size)
IsCut size (j ∷ k ∷ jobs) = (length j.plaintext ≡ size) × IsCut size (k ∷ jobs)

-- The pieces are numbered by the supplied uuids in their order.
abbrev pub Numbered : Uuid → Supply → List EncryptJob → Type 0
Numbered file_id uuids [] = Unit {0}
Numbered file_id [] (j ∷ jobs) = ⊥
Numbered file_id (u ∷ us) (j ∷ jobs) =
    (j.chunk_id ≡ u) × (j.file_id ≡ file_id) × Numbered file_id us jobs

take_all {ℓ} : {A : Type ℓ} (n : ℕ) (l : List A) → length l ≤ n → take n l ≡ l
take_all zero [] h = refl
take_all zero (x ∷ l) h = absurd (omega arith)
take_all (suc n) [] h = refl
take_all (suc n) (x ∷ l) h = ap (λ t. x ∷ t) (take_all n l (omega arith))

cons_job_inv :
    (size file_id : ℕ) (j : EncryptJob) (p : Result (Unit {0}) × List EncryptJob)
    (jobs : List EncryptJob)
    → cons_job size file_id j p ≡ (ok tt, jobs)
    → (js : List EncryptJob) × (p ≡ (ok tt, js)) × (jobs ≡ j ∷ js)
cons_job_inv size file_id j (r, l) jobs h = (l, ap (λ q. (q.0, l)) h, sym (ap (λ q. q.1) h))

-- The source has ended, with io.EOF or io.ErrUnexpectedEOF, and not with another error.
abbrev pub at_end : Option Error → Bool
at_end none = true
at_end (some e) = is_end e

ended_ok :
    (size file_id : ℕ) (e : Error) (rest : Result (Unit {0}) × List EncryptJob)
    (jobs : List EncryptJob)
    → ended size file_id (failed e) rest ≡ (ok tt, jobs)
    → (is_end e ≡ true) × ([] ≡ jobs)
unfolding ended
ended_ok size file_id e rest jobs h = elim (Bool-cases (is_end e)) [
  | inl well ↦ (well, ap (λ p. p.1) h)
  | inr bad ↦ let h' = rw bad at h in cc
]

pub record Cuts (size file_id : ℕ) (uuids : Supply) (src : Source) (jobs : List EncryptJob)
    : Type 0 where
  pub whole : joined jobs ≡ src.bytes
  pub reached : at_end src.failure ≡ true
  pub cut : IsCut size jobs
  pub numbered : Numbered file_id uuids jobs

abbrev pub rest_of : ℕ → Source → Source
rest_of size src = record src { bytes = drop size src.bytes }

module _ (size file_id : ℕ) (src : Source) where
  -- What the end of a reading says of the source.
  abbrev pub EndFacts : ReadEnd → Type 0
  EndFacts full = size ≤ length src.bytes
  EndFacts eof = (src.bytes ≡ []) × (src.failure ≡ none)
  EndFacts unexpected_eof = (length src.bytes < size) × (src.failure ≡ none)
  EndFacts (failed e) = (length src.bytes < size) × (src.failure ≡ some e)

  pub read_end-EndFacts :
      (bytes : Bytes) (end : ReadEnd) → src.bytes ≡ bytes → read_end size src ≡ end → EndFacts end
  unfolding read_end
  read_end-EndFacts [] full b h = ground (arith, ap (length {0}) b)
  read_end-EndFacts (x ∷ xs) full b h = ground (arith, ap (length {0}) b)
  read_end-EndFacts [] eof b h = (b, ground (arith, ap (length {0}) b))
  read_end-EndFacts (x ∷ xs) eof b h = absurd (ground (arith, ap (length {0}) b))
  read_end-EndFacts [] unexpected_eof b h = absurd (ground (arith, ap (length {0}) b))
  read_end-EndFacts (x ∷ xs) unexpected_eof b h = ground (arith, ap (length {0}) b)
  read_end-EndFacts [] (failed e) b h = ground (arith, ap (length {0}) b)
  read_end-EndFacts (x ∷ xs) (failed e) b h = ground (arith, ap (length {0}) b)

  nothing_left :
      (uuids : Supply) (jobs : List EncryptJob)
      → src.bytes ≡ []
      → at_end src.failure ≡ true
      → [] ≡ jobs
      → Cuts size file_id uuids src jobs
  nothing_left uuids jobs e f j =
      rw (← j) (record { whole = sym e; reached = f; cut = tt; numbered = tt })

  Cuts-cons :
      (u : Uuid) (us : Supply) (j : EncryptJob) (jobs : List EncryptJob)
      → 0 < length j.plaintext
      → j.plaintext ≡ take size src.bytes
      → size ≤ length src.bytes
      → j.chunk_id ≡ u
      → j.file_id ≡ file_id
      → Cuts size file_id us (rest_of size src) jobs
      → Cuts size file_id (u ∷ us) src (j ∷ jobs)
  Cuts-cons u us j [] pos e full_size id fid c = record {
    whole = ap₂ (λ a b. a ++ b) e c.whole ∙ take-append-drop size src.bytes;
    reached = c.reached;
    cut = (pos, omega (arith, ap (length {0}) e, length-take {0} size src.bytes));
    numbered = (id, fid, tt);
  }
  Cuts-cons u us j (k ∷ jobs) pos e full_size id fid c = record {
    whole = ap₂ (λ a b. a ++ b) e c.whole ∙ take-append-drop size src.bytes;
    reached = c.reached;
    cut = (omega (arith, ap (length {0}) e, length-take {0} size src.bytes), c.cut);
    numbered = (id, fid, c.numbered);
  }

  -- What is read last, where it does not fill the buffer.
  last-Cuts :
      (u : Uuid) (us : Supply) (b : ℕ) (bs : Bytes)
      → b ∷ bs ≡ take size src.bytes
      → length src.bytes < size
      → at_end src.failure ≡ true
      → Cuts size file_id (u ∷ us) src (job size file_id u (b ∷ bs) ∷ [])
  last-Cuts u us b bs c short end =
      let all = c ∙ take_all size src.bytes (omega arith) in
      record {
        whole = append-nil (b ∷ bs) ∙ all;
        reached = end;
        cut = (omega arith, omega (arith, ap (length {0}) all));
        numbered = (refl, refl, tt);
      }

  round-Cuts :
      (chunk : Bytes) (end : ReadEnd) (uuids : Supply) (sends : List Send)
      (again : Supply → List Send → Result (Unit {0}) × List EncryptJob) (jobs : List EncryptJob)
      → chunk ≡ take size src.bytes
      → EndFacts end
      → ((us : Supply) (ss : List Send) (js : List EncryptJob)
          → again us ss ≡ (ok tt, js)
          → Cuts size file_id us (rest_of size src) js)
      → read_round size file_id chunk end uuids sends again ≡ (ok tt, jobs)
      → Cuts size file_id uuids src jobs
  unfolding read_round ended
  round-Cuts [] full uuids sends again jobs c f ih h =
      let r = ih uuids sends jobs h in
      record {
        whole = r.whole ∙ ap (λ l. l ++ drop size src.bytes) c ∙ take-append-drop size src.bytes;
        reached = r.reached;
        cut = r.cut;
        numbered = r.numbered;
      }
  round-Cuts [] eof uuids sends again jobs c f ih h =
      nothing_left uuids jobs f.0 (rw f.1 refl) (ap (λ p. p.1) h)
  round-Cuts [] unexpected_eof uuids sends again jobs c f ih h =
      nothing_left uuids jobs (sym (take_all size src.bytes (omega arith)) ∙ sym c) (rw f.1 refl)
        (ap (λ p. p.1) h)
  round-Cuts [] (failed e) uuids sends again jobs c f ih h =
      let (well, none_left) = ended_ok size file_id e (again uuids sends) jobs h in
      nothing_left uuids jobs (sym (take_all size src.bytes (omega arith)) ∙ sym c)
        (rw (f.1, well) refl) none_left
  round-Cuts (b ∷ bs) end [] sends again jobs c f ih h = cc
  round-Cuts (b ∷ bs) end (u ∷ us) [] again jobs c f ih h = cc
  round-Cuts (b ∷ bs) end (u ∷ us) (done ∷ ss) again jobs c f ih h = cc
  round-Cuts (b ∷ bs) full (u ∷ us) (sent ∷ ss) again jobs c f ih h =
      let (js, e, same) =
        cons_job_inv size file_id (job size file_id u (b ∷ bs)) (again us ss) jobs h in
      rw same (Cuts-cons u us _ js (omega arith) c f refl refl (ih us ss js e))
  round-Cuts (b ∷ bs) eof (u ∷ us) (sent ∷ ss) again jobs c f ih h =
      absurd (omega (arith, ap (length {0}) c, length-take {0} size src.bytes, ap (length {0}) f.0))
  round-Cuts (b ∷ bs) unexpected_eof (u ∷ us) (sent ∷ ss) again jobs c f ih h =
      rw (← ap (λ p. p.1) h) (last-Cuts u us b bs c f.0 (rw f.1 refl))
  round-Cuts (b ∷ bs) (failed e) (u ∷ us) (sent ∷ ss) again jobs c f ih h =
      let (js, r, same) =
        cons_job_inv size file_id (job size file_id u (b ∷ bs))
          (ended size file_id (failed e) (again us ss)) jobs h in
      let (well, none_left) = ended_ok size file_id e (again us ss) js r in
      rw (same, ← none_left) (last-Cuts u us b bs c f.0 (rw (f.1, well) refl))

module _ (size file_id : ℕ) where
  -- If `read` returns nil, then the source has ended, with io.EOF or with io.ErrUnexpectedEOF, and the
  -- jobs sent are all that it gave, in order, cut into pieces of the chunk size of which only the last may be shorter, numbered by
  -- the supplied uuids in their order.
  pub read-Cuts :
      (fuel : ℕ) (uuids : Supply) (sends : List Send) (src : Source) (jobs : List EncryptJob)
      → read size file_id fuel uuids sends src ≡ (ok tt, jobs)
      → Cuts size file_id uuids src jobs
  unfolding read
  read-Cuts zero uuids sends src jobs h = cc
  read-Cuts (suc fuel) uuids sends src jobs h =
      round-Cuts size file_id src (take size src.bytes) (read_end size src) uuids sends _ jobs refl
        (read_end-EndFacts size file_id src src.bytes (read_end size src) refl refl)
        (λ us ss js e. read-Cuts fuel us ss (rest_of size src) js e) h
