-- ===== src/Pending/Loops/Stops.antt =====
-- How readLoop and claimLoop of internal/service/pending_worker.go end.
use file_cipher_core.Prelude.{
  ℕ, zero, suc, ◌+◌, ◌≡◌, refl, ap, ◌∙◌, ◌⊎◌, inl, inr, Bool, true, false, Bool-cases, Option-cases,
  Option, none, some, List, [], ◌∷◌, leb, arith,
}
use file_cipher_core.Entity.{PendingItem}
use file_cipher_core.Env.{
  Error, canceled, Result, ok, err, blocked, System, Exec, ctx_err, is_canceled,
}
use file_cipher_core.Retry.{LoopBackoff, wait, reset, grow, sleep_ctx, timer_fires, woken}
use file_cipher_core.Repository.Stream.{read_group, claim}
use file_cipher_core.Pending.{PendingWorkerConfig, Fork}
use file_cipher_core.Pending.Loops.{
  processed, stopped, waited, read_turn, read_rounds, read_loop, takes_tick, ticked, claim_turn,
  claim_rounds, claim_loop,
}

-- Not returned yet, or returned with the context's error, and the context is done.
abbrev pub Stops : Result (Unit {0}) × System → Type 0
Stops p = (p.0 ≡ blocked) ⊎ ((p.0 ≡ err canceled) × (ctx_err p.1 ≡ some canceled))

ctx_err_canceled : (s : System) (c : Error) → ctx_err s ≡ some c → c ≡ canceled
ctx_err_canceled s c h = elim (Bool-cases (is_canceled s.cancel_at s.now)) [
  | inl e ↦ let h' = rw e at h in cc
  | inr e ↦ let h' = rw e at h in cc
]

stop_now : (s : System) (c : Error) → ctx_err s ≡ some c → Stops (err c, s)
stop_now s c h = let e = ctx_err_canceled s c h in inr (cc, h ∙ ap some e)

woken_done :
    (cancel_at : Option ℕ) (timer_first : ℕ → Bool) (now due : ℕ)
    → timer_fires timer_first cancel_at due ≡ false
    → is_canceled cancel_at (woken cancel_at now) ≡ true
woken_done none timer_first now due h = cc
woken_done (some t) timer_first now due h = ground arith

still_done :
    (cancel_at : Option ℕ) (now : ℕ)
    → is_canceled cancel_at now ≡ true
    → is_canceled cancel_at (woken cancel_at now) ≡ true
still_done none now h = h
still_done (some t) now h = ground arith

module _ (cfg : PendingWorkerConfig) (consumer : ℕ) where
  stopped-Stops :
      (s : System) → is_canceled s.cancel_at s.now ≡ true → Stops (stopped cfg consumer s)
  stopped-Stops s h = inr (rw h refl, rw h refl)

  processed-Stops :
      (items : List PendingItem) (forks : List Fork) (s : System)
      (next : List Fork → Exec (Unit {0}))
      → ((rest : List Fork) (t : System) → Stops (next rest t))
      → Stops (processed cfg consumer items forks s next)
  processed-Stops [] forks s next k = k forks s
  processed-Stops (i ∷ items) [] s next k = inl refl
  processed-Stops (i ∷ items) (f ∷ forks) s next k = k forks _

  waited-Stops :
      (b : LoopBackoff) (s : System) (next : LoopBackoff → Exec (Unit {0}))
      → ((b' : LoopBackoff) (t : System) → Stops (next b' t))
      → Stops (waited cfg consumer (wait b s) next)
  unfolding wait sleep_ctx
  waited-Stops b s next k =
      elim (Bool-cases (timer_fires s.timer_first s.cancel_at (s.now + (grow b).cur))) [
        | inl e ↦ rw e (k _ _)
        | inr e ↦ rw e (
            stopped-Stops (record s { now = woken s.cancel_at s.now })
              (woken_done s.cancel_at s.timer_first s.now _ e))
      ]

  read_turn-Stops :
      (p : Result (List PendingItem) × System) (forks : List Fork) (b : LoopBackoff)
      (next : List Fork → LoopBackoff → Exec (Unit {0}))
      → ((rest : List Fork) (b' : LoopBackoff) (t : System) → Stops (next rest b' t))
      → Stops (read_turn cfg consumer p forks b next)
  unfolding read_turn
  read_turn-Stops (blocked, s) forks b next k = inl refl
  read_turn-Stops (ok items, s) forks b next k =
      processed-Stops items forks s _ (λ rest t. k rest (reset b) t)
  read_turn-Stops (err e, s) forks b next k = elim (Option-cases (ctx_err s)) [
    | inl alive ↦ rw (alive, read_turn) (waited-Stops b s (next forks) (k forks))
    | inr (c, dead) ↦ rw (dead, read_turn) (stop_now s c dead)
  ]

  read_rounds-Stops :
      (fuel : ℕ) (forks : List Fork) (b : LoopBackoff) (s : System)
      → Stops (read_rounds cfg consumer fuel forks b s)
  unfolding read_rounds
  read_rounds-Stops zero forks b s = inl refl
  read_rounds-Stops (suc fuel) forks b s = elim (Option-cases (ctx_err s)) [
    | inl alive ↦
        rw (alive, read_rounds)
          (read_turn-Stops (read_group consumer cfg.amount s) forks b _
            (λ rest b' t. read_rounds-Stops fuel rest b' t))
    | inr (c, dead) ↦ rw (dead, read_rounds) (stop_now s c dead)
  ]

  not_taken :
      (due : ℕ) (s : System)
      → takes_tick cfg consumer due s ≡ false
      → is_canceled s.cancel_at (woken s.cancel_at s.now) ≡ true
  not_taken due s h = elim (Bool-cases (leb due s.now)) [
    | inr early ↦ woken_done s.cancel_at s.timer_first s.now due (rw early at h)
    | inl late ↦ elim (Bool-cases (is_canceled s.cancel_at s.now)) [
      | inl dead ↦ still_done s.cancel_at s.now dead
      | inr alive ↦ let h' = rw (late, alive) at h in cc
    ]
  ]

  ticked-Stops :
      (due : ℕ) (s : System) (next : ℕ → Exec (Unit {0}))
      → ((due' : ℕ) (t : System) → Stops (next due' t))
      → Stops (ticked cfg consumer due s next)
  unfolding ticked
  ticked-Stops due s next k = elim (Bool-cases (takes_tick cfg consumer due s)) [
    | inl e ↦ rw (e, ticked) (k _ _)
    | inr e ↦
        rw (e, ticked)
          (stopped-Stops (record s { now = woken s.cancel_at s.now }) (not_taken due s e))
  ]

  claim_turn-Stops :
      (p : Result (List PendingItem) × System) (due : ℕ) (forks : List Fork)
      (next : ℕ → List Fork → Exec (Unit {0}))
      → ((due' : ℕ) (rest : List Fork) (t : System) → Stops (next due' rest t))
      → Stops (claim_turn cfg consumer p due forks next)
  unfolding claim_turn
  claim_turn-Stops (blocked, s) due forks next k = inl refl
  claim_turn-Stops (ok items, s) due forks next k =
      processed-Stops items forks s _
        (λ rest t. ticked-Stops due t (λ due'. next due' rest) (λ due' u. k due' rest u))
  claim_turn-Stops (err e, s) due forks next k = elim (Option-cases (ctx_err s)) [
    | inl alive ↦
        rw (alive, claim_turn)
          (ticked-Stops due s (λ due'. next due' forks) (λ due' u. k due' forks u))
    | inr (c, dead) ↦ rw (dead, claim_turn) (stop_now s c dead)
  ]

  claim_rounds-Stops :
      (fuel due : ℕ) (forks : List Fork) (s : System)
      → Stops (claim_rounds cfg consumer fuel due forks s)
  unfolding claim_rounds
  claim_rounds-Stops zero due forks s = inl refl
  claim_rounds-Stops (suc fuel) due forks s =
      claim_turn-Stops (claim consumer cfg.claim_min_idle cfg.amount s) due forks _
        (λ due' rest t. claim_rounds-Stops fuel due' rest t)

  -- Neither loop of the worker gives up: whatever reads, claims and writes fail, readLoop and
  -- claimLoop return only when their context is done, and then with its error.
  pub loops-Stops :
      (fuel : ℕ) (forks : List Fork) (s : System)
      → Stops (read_loop cfg consumer fuel forks s) × Stops (claim_loop cfg consumer fuel forks s)
  unfolding read_loop claim_loop
  loops-Stops fuel forks s = (read_rounds-Stops fuel forks _ s, claim_rounds-Stops fuel _ forks s)
