-- ===== src/Retry/Laws.antt =====
-- retryDo of internal/service/retry.go on calls that fail a number of times.
use file_cipher_core.Prelude.{
  ℕ, zero, suc, ◌+◌, ◌≤◌, ◌<◌, ◌≡◌, refl, ap, ◌∙◌, ◌⊎◌, true, none, arith, Option-cases, inl, inr,
}
use file_cipher_core.Env.{
  Error, wrap, retry_exhausted, Result, ok, err, blocked, System, Exec, ctx_err,
}
use file_cipher_core.Retry.{RetryConfig, pos, sleep_ctx, settle, retry_more, retry_rounds, retry_do}

-- The state after an undisturbed pause.
abbrev pub paused : ℕ → System → System
paused d s = record s { now = s.now + d }

sleep_undisturbed : (d : ℕ) (s : System) → s.cancel_at ≡ none → sleep_ctx d s ≡ (true, paused d s)
unfolding sleep_ctx
sleep_undisturbed d s h = rw h refl

module _ {ℓ} {A : Type ℓ} (fn : Exec A) (d : ℕ) where
  -- The state in which call number `k` (from 0) of a row of calls with pauses starts.
  abbrev pub call_state : ℕ → System → System
  call_state zero s = s
  call_state (suc k) s = call_state k (paused d (fn s).1)

  -- Calls number 0 to k - 1 fail, with the context alive after each.
  abbrev pub FailsFor : ℕ → System → Type ℓ
  FailsFor zero s = Unit
  FailsFor (suc k) s =
      ((e : Error) × ((fn s).0 ≡ err e))
      × ((fn s).1.cancel_at ≡ none)
      × FailsFor k (paused d (fn s).1)

  settle_failed :
      (p : Result A × System) (e : Error) (again : Error → Exec A)
      → p.0 ≡ err e
      → p.1.cancel_at ≡ none
      → settle p again ≡ again e p.1
  unfolding settle
  settle_failed (ok a, t) e again h c = cc
  settle_failed (blocked, t) e again h c = cc
  settle_failed (err e', t) e again h c = rw c (ground arith)

  settle_ok :
      (p : Result A × System) (a : A) (again : Error → Exec A) → p.0 ≡ ok a → settle p again ≡ p
  unfolding settle
  settle_ok (ok b, t) a again h = refl
  settle_ok (blocked, t) a again h = cc
  settle_ok (err e', t) a again h = cc

  retry_more_succeeds :
      (k n : ℕ) (last : Error) (s : System) (a : A)
      → k < n
      → s.cancel_at ≡ none
      → FailsFor k (paused d s)
      → (fn (call_state k (paused d s))).0 ≡ ok a
      → retry_more n d fn last s ≡ fn (call_state k (paused d s))
  unfolding retry_more
  retry_more_succeeds k zero last s a h c fails good = elim h [ ]
  retry_more_succeeds zero (suc n) last s a h c fails good =
      rw (sleep_undisturbed d s c) (settle_ok _ a _ good)
  retry_more_succeeds (suc k) (suc n) last s a h c ((e, f), alive, fails) good =
      rw (sleep_undisturbed d s c)
        (settle_failed _ e _ f alive ∙ retry_more_succeeds k n e _ a (omega arith) alive fails good)

  rounds_exhausted :
      (n : ℕ) (s : System) (e : Error)
      → FailsFor (suc n) s
      → (fn (call_state n s)).0 ≡ err e
      → settle (fn s) (λ e'. retry_more n d fn e')
        ≡ (err (wrap retry_exhausted e), (fn (call_state n s)).1)
  unfolding retry_more
  rounds_exhausted zero s e ((e', f), alive, fails) final = settle_failed (fn s) e' _ f alive ∙ cc
  rounds_exhausted (suc n) s e ((e', f), alive, fails) final =
      settle_failed (fn s) e' _ f alive
      ∙ rw (sleep_undisturbed d (fn s).1 alive)
          (rounds_exhausted n (paused d (fn s).1) e fails final)

module _ {ℓ} {A : Type ℓ} where
  pub settle_inv :
      (p : Result A × System) (again : Error → Exec A) (a : A) (t : System)
      → settle p again ≡ (ok a, t)
      → (p ≡ (ok a, t)) ⊎ ((e : Error) × (again e p.1 ≡ (ok a, t)))
  unfolding settle
  settle_inv (ok b, u) again a t h = inl h
  settle_inv (blocked, u) again a t h = inl h
  settle_inv (err e, u) again a t h = elim (Option-cases (ctx_err u)) [
    | inl alive ↦ inr (e, ground (arith, alive))
    | inr (c, dead) ↦ absurd (ground (arith, dead))
  ]

module _ {ℓ} {A : Type ℓ} (fn : Exec A) (cfg : RetryConfig) where
  -- With Attempts = n, k failures for k ≤ n are absorbed if the context is never cancelled: the
  -- result is that of call number k (from 0), and no call follows it.
  pub retry_do-absorbs :
      (n k : ℕ) (s : System) (a : A)
      → cfg.attempts ≡ pos n
      → k ≤ n
      → FailsFor fn cfg.backoff k s
      → (fn (call_state fn cfg.backoff k s)).0 ≡ ok a
      → retry_do cfg fn s ≡ fn (call_state fn cfg.backoff k s)
  unfolding retry_do retry_rounds
  retry_do-absorbs n zero s a q h fails good = rw q (settle_ok fn cfg.backoff _ a _ good)
  retry_do-absorbs n (suc k) s a q h ((e, f), alive, fails) good = rw q (
      settle_failed fn cfg.backoff _ e _ f alive
      ∙ retry_more_succeeds fn cfg.backoff k n e _ a h alive fails good)

  -- With Attempts = n and a context that is never cancelled, if the calls fail, n + 1 are made and
  -- no more, and the error that comes back wraps the last call's.
  pub retry_do-exhausted :
      (n : ℕ) (s : System) (e : Error)
      → cfg.attempts ≡ pos n
      → FailsFor fn cfg.backoff (suc n) s
      → (fn (call_state fn cfg.backoff n s)).0 ≡ err e
      → retry_do cfg fn s ≡ (err (wrap retry_exhausted e), (fn (call_state fn cfg.backoff n s)).1)
  unfolding retry_do retry_rounds
  retry_do-exhausted n s e q fails final = rw q (rounds_exhausted fn cfg.backoff n s e fails final)

pub retry_quiet {ℓ} :
    {A : Type ℓ} (cfg : RetryConfig) (n : ℕ) (fn : Exec A) (s t : System) (a : A)
    → cfg.attempts ≡ pos n
    → fn s ≡ (ok a, t)
    → retry_do cfg fn s ≡ (ok a, t)
retry_quiet cfg n fn s t a q e =
    retry_do-absorbs fn cfg n 0 s a q (omega arith) tt (ap (λ p. p.0) e) ∙ e
