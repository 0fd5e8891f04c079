-- ===== src/Workers/Made.antt =====
-- The items that a worker sends against the jobs that it took.
use file_cipher_core.Prelude.{◌≡◌, refl, ap, List, [], ◌∷◌, ◌++◌}
use file_cipher_core.Entity.{FlushItem}
use file_cipher_core.Env.{Result, ok, err, blocked, System, Exec}
use file_cipher_core.Crypto.{Gcm}
use file_cipher_core.Cipher.{EncryptJob, Send, sent, done, encrypt_job}
use file_cipher_core.Rotation.{RotationJob, rotate_job}
use file_cipher_core.Workers.{
  Take, job, closed, ctx_done, Work, send_item, worker, encrypt_worker, rotation_worker,
}

module _ {J : Type 0} (step : J → Exec FlushItem) where
  -- Each item is what the worker made of its job, in some state.
  abbrev pub MadeOf : List J → List FlushItem → Type 0
  MadeOf [] [] = Unit {0}
  MadeOf [] (i ∷ items) = ⊥
  MadeOf (j ∷ jobs) [] = ⊥
  MadeOf (j ∷ jobs) (i ∷ items) =
      ((s : System) × (t : System) × (step j s ≡ (ok i, t))) × MadeOf jobs items

  -- The jobs until the channel is closed or the context done.
  abbrev pub taken : List (Take J) → List J
  taken [] = []
  taken (ctx_done ∷ takes) = []
  taken (closed ∷ takes) = []
  taken (job j ∷ takes) = j ∷ taken takes

  -- The items sent are made of the first of these jobs, and of all of them after a success.
  pub record Makes (jobs : List J) (w : Work) : Type 0 where
    pub first : List J
    pub rest : List J
    pub split : first ++ rest ≡ jobs
    pub made : MadeOf first w.0.1
    pub whole : w.0.0 ≡ ok tt → rest ≡ []

  Makes-none :
      (jobs : List J) (r : Result (Unit {0})) (s : System)
      → (r ≡ ok tt → jobs ≡ [])
      → Makes jobs ((r, []), s)
  Makes-none jobs r s h = record { first = []; rest = jobs; split = refl; made = tt; whole = h }

  send_item-Makes :
      (j : J) (jobs : List J) (s : System) (p : Result FlushItem × System) (sends : List Send)
      (next : List Send → System → Work)
      → step j s ≡ p
      → ((rest : List Send) (t : System) → Makes jobs (next rest t))
      → Makes (j ∷ jobs) (send_item step p sends next)
  unfolding send_item
  send_item-Makes j jobs s (err e, t) sends next h k = Makes-none (j ∷ jobs) (err e) t (λ r. cc)
  send_item-Makes j jobs s (blocked, t) sends next h k = Makes-none (j ∷ jobs) blocked t (λ r. cc)
  send_item-Makes j jobs s (ok i, t) [] next h k = Makes-none (j ∷ jobs) blocked t (λ r. cc)
  send_item-Makes j jobs s (ok i, t) (done ∷ sends) next h k = Makes-none (j ∷ jobs) _ t (λ r. cc)
  send_item-Makes j jobs s (ok i, t) (sent ∷ sends) next h k =
      let more = k sends t in
      record {
        first = j ∷ more.first;
        rest = more.rest;
        split = ap (λ l. j ∷ l) more.split;
        made = ((s, t, h), more.made);
        whole = more.whole;
      }

  pub worker-Makes :
      (takes : List (Take J)) (sends : List Send) (s : System)
      → Makes (taken takes) (worker step takes sends s)
  unfolding worker
  worker-Makes [] sends s = Makes-none [] blocked s (λ r. refl)
  worker-Makes (ctx_done ∷ takes) sends s = Makes-none [] _ s (λ r. refl)
  worker-Makes (closed ∷ takes) sends s = Makes-none [] (ok tt) s (λ r. refl)
  worker-Makes (job j ∷ takes) sends s =
      send_item-Makes j (taken takes) s (step j s) sends _ refl
        (λ rest t. worker-Makes takes rest t)

-- Neither worker drops, repeats or invents an item: whatever fails, the items that it has sent are
-- made, one for one and in order, of the first jobs that it took, and if it returns nil, of all the
-- jobs that it took before its channel was closed.
pub workers-Makes :
    (g : Gcm) (sends : List Send) (s : System) (uploads : List (Take EncryptJob))
    (rotations : List (Take RotationJob))
    → Makes (encrypt_job g) (taken (encrypt_job g) uploads) (encrypt_worker g uploads sends s)
      × Makes (rotate_job g) (taken (rotate_job g) rotations) (rotation_worker g rotations sends s)
unfolding encrypt_worker rotation_worker
workers-Makes g sends s uploads rotations =
    (worker-Makes (encrypt_job g) uploads sends s, worker-Makes (rotate_job g) rotations sends s)
