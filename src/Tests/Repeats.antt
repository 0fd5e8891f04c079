-- ===== src/Tests/Repeats.antt =====
-- Retried calls and growing pauses.
use file_cipher_core.Prelude.{ℕ, ◌+◌, ◌*◌, ◌≤◌, ◌≡◌, refl, List, [], ◌∷◌, arith}
use file_cipher_core.Env.{
  external, wrap, retry_exhausted, ok, err, answered, refused, Outcome, System, Exec, commit,
}
use file_cipher_core.Crypto.{draw}
use file_cipher_core.Retry.{pos, reset, retry_do, retry_rounds, retry_more, settle, sleep_ctx}
use file_cipher_core.Retry.Laws.{retry_do-absorbs, retry_do-exhausted}
use file_cipher_core.Retry.Time.{retry_do_time}
use file_cipher_core.Retry.Keeps.{retry_do-ok}
use file_cipher_core.Retry.Backoff.{grow_times, cur-grow_times}
use file_cipher_core.Repository.Sql.{copy_from, has_key}
use file_cipher_core.Repository.Tables.{
  save_keys, save_rows, ignore_duplicates, is_unique_violation,
}
use file_cipher_core.Repository.Timed.{Takes-save_keys}
use file_cipher_core.Tests.{key_row, retries, world}

-- A call that draws one byte.
abbrev call : Exec (List ℕ)
call = commit (draw 1)

abbrev refusal : Outcome
refusal = record { takes = 3; fault = refused (external 1) }

abbrev one_refusal : System
one_refusal = record world { script = refusal ∷ [] }

abbrev three_refusals : System
three_refusals = record world { script = refusal ∷ refusal ∷ refusal ∷ refusal ∷ [] }

-- The first call takes 3, the pause 1.
retry_do-absorbs_example :
    retry_do retries call one_refusal ≡ (ok (0 ∷ []), record world { now = 14; drawn = 1 })
retry_do-absorbs_example =
    retry_do-absorbs call retries 2 1 one_refusal (0 ∷ []) refl (omega arith)
      ((external 1, refl), refl, tt) refl

retry_do-ok_example : (u : System) × (call u ≡ (ok (0 ∷ []), record world { now = 14; drawn = 1 }))
unfolding retry_do retry_rounds retry_more settle sleep_ctx
retry_do-ok_example =
    retry_do-ok call retries one_refusal (0 ∷ []) (record world { now = 14; drawn = 1 }) refl

retry_do-exhausted_example :
    retry_do retries call three_refusals
    ≡ (err (wrap retry_exhausted (external 1)), record world { now = 21; script = refusal ∷ [] })
retry_do-exhausted_example =
    retry_do-exhausted call retries 2 three_refusals (external 1) refl
      ((external 1, refl), refl, ((external 1, refl), refl, ((external 1, refl), refl, tt))) refl

-- 3, 6, 12, and then the cap.
cur-grow_times_example : (grow_times 4 (reset (record { base = 3; cap = 20; cur = 12 }))).cur ≡ 20
cur-grow_times_example =
    cur-grow_times 3 (record { base = 3; cap = 20; cur = 12 }) (omega arith) (omega arith)

-- A write that is refused twice and then goes through, with two pauses of 5.
abbrev two_refusals : System
two_refusals = record world {
  script = refusal ∷ refusal ∷ record { takes = 2; fault = answered } ∷ [];
}

retry_do_time_example :
    (retry_do
      (record { attempts = pos 2; backoff = 5 })
      (save_keys (key_row 9 1 ∷ []))
      two_refusals).1.now
    ≤ 10 + (3 + 2 * (5 + 3))
retry_do_time_example =
    retry_do_time 3 5 2 (save_keys (key_row 9 1 ∷ [])) two_refusals
      (Takes-save_keys 3 (key_row 9 1 ∷ [])) (omega arith, (omega arith, (omega arith, tt)))

took_time :
    (retry_do
      (record { attempts = pos 2; backoff = 5 })
      (save_keys (key_row 9 1 ∷ []))
      two_refusals).1.now
    ≡ 28
unfolding retry_do retry_rounds retry_more settle sleep_ctx save_keys save_rows ignore_duplicates
    is_unique_violation copy_from has_key
took_time = refl
