-- ===== src/Workers.antt =====
-- The workers of internal/service/cipher_file.go and cipher_rotation.go: a job is taken from one
-- channel, and the item made of it is sent into another.
pub mod Made
pub mod Ends
use file_cipher_core.Prelude.{ℕ, List, [], ◌∷◌}
use file_cipher_core.Entity.{FlushItem}
use file_cipher_core.Env.{Error, canceled, Result, ok, err, blocked, System, Exec}
use file_cipher_core.Crypto.{Gcm}
use file_cipher_core.Cipher.{EncryptJob, Send, sent, done, encrypt_job}
use file_cipher_core.Rotation.{RotationJob, rotate_job}

-- What the first select takes: a job, the closed channel, or ctx.Done().
pub data Take (J : Type 0) : Type 0 where
  job : J → Take J
  closed : Take J
  ctx_done : Take J

-- The result, and the items that have been sent.
abbrev pub Work : Type 0
Work = (Result (Unit {0}) × List FlushItem) × System

abbrev pub cons_item : FlushItem → Work → Work
cons_item i ((r, items), s) = ((r, i ∷ items), s)

module _ {J : Type 0} (step : J → Exec FlushItem) where
  -- Behind the work on one job: its error, or the second select.
  unfoldable pub send_item :
      Result FlushItem × System → List Send → (List Send → System → Work) → Work
  send_item (err e, s) sends next = ((err e, []), s)
  send_item (blocked, s) sends next = ((blocked, []), s)
  send_item (ok i, s) [] next = ((blocked, []), s)
  send_item (ok i, s) (done ∷ sends) next = ((err canceled, []), s)
  send_item (ok i, s) (sent ∷ sends) next = cons_item i (next sends s)

  unfoldable pub worker : List (Take J) → List Send → System → Work
  unfolding send_item
  worker [] sends s = ((blocked, []), s)
  worker (ctx_done ∷ takes) sends s = ((err canceled, []), s)
  worker (closed ∷ takes) sends s = ((ok tt, []), s)
  worker (job j ∷ takes) sends s = send_item (step j s) sends (λ rest t. worker takes rest t)

unfoldable pub encrypt_worker : Gcm → List (Take EncryptJob) → List Send → System → Work
unfolding worker
encrypt_worker g = worker (encrypt_job g)

unfoldable pub rotation_worker : Gcm → List (Take RotationJob) → List Send → System → Work
unfolding worker
rotation_worker g = worker (rotate_job g)
