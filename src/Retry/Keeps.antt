-- ===== src/Retry/Keeps.antt =====
-- Invariants across retryDo, and the call that it succeeds with.
use file_cipher_core.Prelude.{ℕ, zero, suc, ◌+◌, ◌≡◌, Option-cases, Bool-cases, inl, inr}
use file_cipher_core.Env.{Error, Result, ok, err, blocked, System, Exec, ctx_err}
use file_cipher_core.Env.Keeps.{Keeps}
use file_cipher_core.Retry.Laws.{settle_inv}
use file_cipher_core.Retry.{
  RetryConfig, rounds, timer_fires, sleep_ctx, settle, retry_more, retry_rounds, retry_do,
}

module _ {κ} {P : System → Type κ}
    (timeless : (s : System) (n : ℕ) → P s → P (record s { now = n })) where
  sleep_keeps : (d : ℕ) (s : System) → P s → P (sleep_ctx d s).1
  unfolding sleep_ctx
  sleep_keeps d s h = elim (Bool-cases (timer_fires s.timer_first s.cancel_at (s.now + d))) [
    | inl e ↦ rw (e, sleep_ctx) (timeless s _ h)
    | inr e ↦ rw (e, sleep_ctx) (timeless s _ h)
  ]

module _ {κ ℓ} {P : System → Type κ} {A : Type ℓ}
    (timeless : (s : System) (n : ℕ) → P s → P (record s { now = n })) where
  settle_keeps :
      (p : Result A × System) (again : Error → Exec A)
      → P p.1
      → ((e : Error) → Keeps P (again e))
      → P (settle p again).1
  unfolding settle
  settle_keeps (ok a, s) again h k = h
  settle_keeps (blocked, s) again h k = h
  settle_keeps (err e, s) again h k = elim (Option-cases (ctx_err s)) [
    | inl alive ↦ rw (alive, settle) ((k e).at s h)
    | inr (c, dead) ↦ rw (dead, settle) h
  ]

  retry_more-Keeps :
      (fn : Exec A) → Keeps P fn → (n d : ℕ) (e : Error) → Keeps P (retry_more n d fn e)
  unfolding retry_more
  retry_more-Keeps fn k zero d e = record { at = λ s h. h }
  retry_more-Keeps fn k (suc n) d e = record {
    at = λ s h. elim (Bool-cases (sleep_ctx d s).0) [
      | inl slept ↦
          rw (slept, retry_more)
            (settle_keeps (fn (sleep_ctx d s).1) _ (k.at _ (sleep_keeps timeless d s h))
              (λ e'. retry_more-Keeps fn k n d e'))
      | inr cut ↦ rw (cut, retry_more) (sleep_keeps timeless d s h)
    ];
  }

  retry_rounds-Keeps : (fn : Exec A) → Keeps P fn → (n d : ℕ) → Keeps P (retry_rounds n d fn)
  unfolding retry_rounds
  retry_rounds-Keeps fn k zero d = record { at = λ s h. h }
  retry_rounds-Keeps fn k (suc n) d = record {
    at = λ s h. settle_keeps (fn s) _ (k.at s h) (λ e. retry_more-Keeps fn k n d e);
  }

  -- What a call keeps, and the clock does not touch, its retries keep.
  pub retry_do-Keeps : (cfg : RetryConfig) (fn : Exec A) → Keeps P fn → Keeps P (retry_do cfg fn)
  unfolding retry_do
  retry_do-Keeps cfg fn k = retry_rounds-Keeps fn k (rounds cfg.attempts) cfg.backoff

  retry_more_from :
      (fn : Exec A)
      → Keeps P fn
      → (n d : ℕ) (e : Error) (s : System) (a : A) (t : System) → P s
      → retry_more n d fn e s ≡ (ok a, t)
      → (u : System) × P u × (fn u ≡ (ok a, t))
  unfolding retry_more
  retry_more_from fn k zero d e s a t h r = cc
  retry_more_from fn k (suc n) d e s a t h r = elim (Bool-cases (sleep_ctx d s).0) [
    | inr cut ↦ let r' = rw cut at r in cc
    | inl slept ↦
        let kept = sleep_keeps timeless d s h in
        elim (settle_inv (fn (sleep_ctx d s).1) _ a t (rw slept at r)) [
          | inl r' ↦ (_, kept, r')
          | inr (e', r') ↦ retry_more_from fn k n d e' (fn (sleep_ctx d s).1).1 a t (k.at _ kept) r'
        ]
  ]

  retry_rounds_from :
      (fn : Exec A)
      → Keeps P fn
      → (n d : ℕ) (s : System) (a : A) (t : System) → P s
      → retry_rounds n d fn s ≡ (ok a, t)
      → (u : System) × P u × (fn u ≡ (ok a, t))
  unfolding retry_rounds
  retry_rounds_from fn k zero d s a t h r = cc
  retry_rounds_from fn k (suc n) d s a t h r = elim (settle_inv (fn s) _ a t r) [
    | inl r' ↦ (s, h, r')
    | inr (e, r') ↦ retry_more_from fn k n d e (fn s).1 a t (k.at s h) r'
  ]

  -- The call that retryDo succeeds with was made in a state with the invariant.
  pub retry_do_from :
      (cfg : RetryConfig) (fn : Exec A)
      → Keeps P fn
      → (s : System) (a : A) (t : System) → P s
      → retry_do cfg fn s ≡ (ok a, t)
      → (u : System) × P u × (fn u ≡ (ok a, t))
  unfolding retry_do
  retry_do_from cfg fn k s a t h r =
      retry_rounds_from fn k (rounds cfg.attempts) cfg.backoff s a t h r

module _ {ℓ} {A : Type ℓ} (fn : Exec A) (cfg : RetryConfig) where
  -- If retryDo reports success, the last thing it did was a call that succeeded with that result,
  -- whatever failures, pauses and cancellations came before.
  pub retry_do-ok :
      (s : System) (a : A) (t : System)
      → retry_do cfg fn s ≡ (ok a, t)
      → (u : System) × (fn u ≡ (ok a, t))
  retry_do-ok s a t h =
      let (u, _, e) =
        retry_do_from {P = λ _. Unit {0}} (λ _ _ _. tt) cfg fn (record { at = λ _ _. tt }) s a t tt
          h in
      (u, e)
