-- ===== src/Retry.antt =====
-- internal/service/retry.go: repeated calls, interruptible pauses, the growing pause of a loop.
pub mod Laws
pub mod Backoff
pub mod Keeps
pub mod Time
use file_cipher_core.Prelude.{
  ℕ, zero, suc, ◌+◌, ◌*◌, Bool, true, false, Option, none, some, ltb, ◌==◌, if◌then◌else◌,
}
use file_cipher_core.Env.{
  Error, canceled, wrap, message, retry_exhausted, last_error, Result, ok, err, blocked, System,
  Exec, ctx_err,
}

-- Go's int, where its sign matters: `negsuc n` is -(n + 1).
pub data ℤ : Type 0 where
  pos : ℕ → ℤ
  negsuc : ℕ → ℤ

pub record RetryConfig : Type 0 where
  pub attempts : ℤ
  pub backoff : ℕ

-- How often `for attempt := 0; attempt <= Attempts; attempt++` runs.
abbrev pub rounds : ℤ → ℕ
rounds (pos n) = suc n
rounds (negsuc n) = 0

-- When both cases of a select are ready it takes either: `timer_first` is that choice.
abbrev pub timer_fires : (ℕ → Bool) → Option ℕ → ℕ → Bool
timer_fires timer_first none due = true
timer_fires timer_first (some t) due =
    if ltb due t then true else if due == t then timer_first t else false

abbrev pub woken : Option ℕ → ℕ → ℕ
woken none now = now
woken (some t) now = if ltb now t then t else now

-- select { case <-ctx.Done(): return false; case <-timer.C: return true }
unfoldable pub sleep_ctx : ℕ → System → Bool × System
sleep_ctx d s =
    if timer_fires s.timer_first s.cancel_at (s.now + d)
    then (true, record s { now = s.now + d })
    else (false, record s { now = woken s.cancel_at s.now })

-- What `%w` of a nil ctx.Err() would be does not arise: `canceled` is called on a done context.
abbrev pub or_canceled : Option Error → Error
or_canceled none = canceled
or_canceled (some e) = e

unfoldable pub canceled_by : Option Error → System → Error
canceled_by none s = or_canceled (ctx_err s)
canceled_by (some last) s = wrap last_error (or_canceled (ctx_err s))

abbrev pub exhausted : Option Error → Error
exhausted none = message retry_exhausted
exhausted (some e) = wrap retry_exhausted e

module _ {ℓ} {A : Type ℓ} where
  -- The part of the loop body behind the pause; `again` is the rest of the loop.
  unfoldable pub settle : Result A × System → (Error → Exec A) → Result A × System
  unfolding canceled_by
  settle (ok a, s) again = (ok a, s)
  settle (blocked, s) again = (blocked, s)
  settle (err e, s) again =
      let rest = again e s in
      elim (ctx_err s) [ some _ ↦ (err (canceled_by (some e) s), s) | none ↦ rest ]

  -- The rounds behind the first; `last` is lastErr.
  unfoldable pub retry_more : ℕ → ℕ → Exec A → Error → Exec A
  unfolding sleep_ctx canceled_by settle
  retry_more zero backoff fn last s = (err (exhausted (some last)), s)
  retry_more (suc n) backoff fn last s =
      let (slept, s') = sleep_ctx backoff s in
      let next = settle (fn s') (λ e. retry_more n backoff fn e) in
      if slept then next else (err (canceled_by (some last) s'), s')

  unfoldable pub retry_rounds : ℕ → ℕ → Exec A → Exec A
  unfolding retry_more settle
  retry_rounds zero backoff fn s = (err (exhausted none), s)
  retry_rounds (suc n) backoff fn s = settle (fn s) (λ e. retry_more n backoff fn e)

  -- The closures of the code assign their result to a variable of the caller: here they return it.
  unfoldable pub retry_do : RetryConfig → Exec A → Exec A
  unfolding retry_rounds
  retry_do cfg fn = retry_rounds (rounds cfg.attempts) cfg.backoff fn

pub record LoopBackoff : Type 0 where
  pub base : ℕ
  pub cap : ℕ
  pub cur : ℕ

-- The pause of `wait`, before it sleeps.
unfoldable pub grow : LoopBackoff → LoopBackoff
grow b =
    if b.cur == 0
    then record b { cur = b.base }
    else if ltb b.cur b.cap
    then (let doubled = b.cur * 2 in
        record b { cur = if ltb b.cap doubled then b.cap else doubled })
    else b

unfoldable pub wait : LoopBackoff → System → Bool × LoopBackoff × System
unfolding grow sleep_ctx
wait b s = let b' = grow b in let (slept, s') = sleep_ctx b'.cur s in (slept, b', s')

unfoldable pub reset : LoopBackoff → LoopBackoff
reset b = record b { cur = 0 }
