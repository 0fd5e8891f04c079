-- ===== src/Retry/Time.antt =====
-- How long retryDo takes at most.
use file_cipher_core.Prelude.{
  ℕ, zero, suc, ◌+◌, ◌*◌, ◌≤◌, ◌≡◌, refl, Option-cases, Bool-cases, inl, inr, Option, none, some,
  false, Bool, List, [], ◌∷◌, All, arith,
}
use file_cipher_core.Env.{
  Error, Result, ok, err, blocked, Fault, answered, refused, broken, Outcome, System, Exec, ctx_err,
  head_outcome, tail_outcomes, spend, query, committed, commit,
}
use file_cipher_core.Retry.{
  pos, timer_fires, woken, sleep_ctx, settle, retry_more, retry_rounds, retry_do,
}

woken_early :
    (cancel_at : Option ℕ) (timer_first : ℕ → Bool) (now d : ℕ)
    → timer_fires timer_first cancel_at (now + d) ≡ false
    → woken cancel_at now ≤ now + d
woken_early none timer_first now d h = cc
woken_early (some t) timer_first now d h = ground arith

sleep_ctx_time : (d : ℕ) (s : System) → (sleep_ctx d s).1.now ≤ s.now + d
unfolding sleep_ctx
sleep_ctx_time d s = elim (Bool-cases (timer_fires s.timer_first s.cancel_at (s.now + d))) [
  | inl e ↦ rw (e, sleep_ctx) (omega arith)
  | inr e ↦ rw (e, sleep_ctx) (woken_early s.cancel_at s.timer_first s.now d e)
]

-- None of the coming external calls takes more than `c`.
abbrev pub Prompt : ℕ → List Outcome → Type 0
Prompt c = All (λ o. o.takes ≤ c)

-- A call that makes one external call at most, in a state where none takes more than `c`.
pub record Takes {ℓ} {A : Type ℓ} (c : ℕ) (fn : Exec A) : Type ℓ where
  pub within : (s : System) → Prompt c s.script → (fn s).1.now ≤ s.now + c
  pub prompt : (s : System) → Prompt c s.script → Prompt c (fn s).1.script

head-Prompt : (c : ℕ) (l : List Outcome) → Prompt c l → (head_outcome l).takes ≤ c
head-Prompt c [] h = omega arith
head-Prompt c (o ∷ l) (h, h') = h

pub tail-Prompt : (c : ℕ) (l : List Outcome) → Prompt c l → Prompt c (tail_outcomes l)
tail-Prompt c [] h = tt
tail-Prompt c (o ∷ l) (h, h') = h'

module _ (c : ℕ) where
  pub spend_time : (s : System) → Prompt c s.script → (spend s).now ≤ s.now + c
  spend_time s h = omega (arith, head-Prompt c s.script h)

  -- A query, as Get… and the pages are.
  pub Takes-query {ℓ} : {A : Type ℓ} (q : System → Result A) → Takes c (query q)
  Takes-query q = record { within = spend_time; prompt = λ s h. tail-Prompt c s.script h }

  -- What a statement does takes no time of its own, and leaves the coming outcomes.
  pub record Instant {ℓ} {A : Type ℓ} (m : Exec A) : Type ℓ where
    pub clock : (s : System) → (m s).1.now ≡ s.now
    pub script : (s : System) → (m s).1.script ≡ s.script

  committed_at {ℓ κ} :
      {A : Type ℓ} {B : Type κ} (of : System → B) (f : Fault) (p : Result A × System) (s : System)
      → of p.1 ≡ of s
      → of (committed f p s).1 ≡ of s
  committed_at of answered p s h = h
  committed_at of (refused e) p s h = refl
  committed_at of (broken n e) p s h = h

  pub Takes-commit {ℓ} : {A : Type ℓ} (m : Exec A) → Instant m → Takes c (commit m)
  Takes-commit m i = record {
    within = λ s h.
        rw
          (committed_at (λ u. u.now) (head_outcome s.script).fault (m (spend s)) (spend s)
            (i.clock (spend s)))
          (spend_time s h);
    prompt = λ s h.
        rw
          (committed_at (λ u. u.script) (head_outcome s.script).fault (m (spend s)) (spend s)
            (i.script (spend s)))
          (tail-Prompt c s.script h);
  }

sleep_script : (d : ℕ) (s : System) → (sleep_ctx d s).1.script ≡ s.script
unfolding sleep_ctx
sleep_script d s = elim (Bool-cases (timer_fires s.timer_first s.cancel_at (s.now + d))) [
  | inl e ↦ rw (e, sleep_ctx) refl
  | inr e ↦ rw (e, sleep_ctx) refl
]

-- What may still take `m` in a state of prompt calls.
abbrev Lasts {ℓ} : {A : Type ℓ} → ℕ → ℕ → Exec A → Type 0
Lasts c m fn = (s : System) → Prompt c s.script → (fn s).1.now ≤ s.now + m

module _ {ℓ} {A : Type ℓ} (c d : ℕ) (fn : Exec A) (fast : Takes c fn) where
  settle_time :
      (p : Result A × System) (again : Error → Exec A) (m : ℕ)
      → Prompt c p.1.script
      → ((e : Error) → Lasts c m (again e))
      → (settle p again).1.now ≤ p.1.now + m
  unfolding settle
  settle_time (ok a, s) again m q h = omega arith
  settle_time (blocked, s) again m q h = omega arith
  settle_time (err e, s) again m q h = elim (Option-cases (ctx_err s)) [
    | inl alive ↦ rw (alive, settle) (h e s q)
    | inr (x, dead) ↦ rw (dead, settle) (omega arith)
  ]

  retry_more_time : (n : ℕ) (last : Error) → Lasts c (n * (d + c)) (retry_more n d fn last)
  unfolding retry_more
  retry_more_time zero last s q = omega arith
  retry_more_time (suc n) last s q =
      let pause = sleep_ctx_time d s in
      let awake : Prompt c (sleep_ctx d s).1.script = rw (sleep_script d s) q in
      elim (Bool-cases (sleep_ctx d s).0) [
        | inl slept ↦
            let call = fast.within (sleep_ctx d s).1 awake in
            let rest =
              settle_time (fn (sleep_ctx d s).1) (λ e. retry_more n d fn e) (n * (d + c))
                (fast.prompt (sleep_ctx d s).1 awake) (λ e. retry_more_time n e) in
            rw (slept, retry_more) (omega arith)
        | inr cut ↦ rw (cut, retry_more) (omega arith)
      ]

-- retryDo is bounded in time, for a function that makes one external call, as the queries and the
-- writes do that the services retry: if none of the coming calls takes more than `c`, then with `n`
-- retries and the pause `d` retryDo is over after at most c + n * (d + c), whatever fails and
-- whenever the context is cancelled.
pub retry_do_time {ℓ} :
    {A : Type ℓ} (c d n : ℕ) (fn : Exec A) (s : System)
    → Takes c fn
    → Prompt c s.script
    → (retry_do (record { attempts = pos n; backoff = d }) fn s).1.now ≤ s.now + (c + n * (d + c))
unfolding retry_do retry_rounds
retry_do_time c d n fn s fast q =
    let call = fast.within s q in
    let rest =
      settle_time c d fn fast (fn s) (λ e. retry_more n d fn e) (n * (d + c)) (fast.prompt s q)
        (λ e. retry_more_time c d fn fast n e) in
    omega arith
