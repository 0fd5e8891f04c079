-- ===== src/Pending/Loops.antt =====
-- pending_worker.go, readLoop and claimLoop. `forks` are how the coming calls of `process` run.
pub mod Stops
use file_cipher_core.Prelude.{
  ℕ, zero, suc, ◌+◌, ◌-◌, ◌*◌, ◌/◌, leb, Bool, true, false, Option, none, some, List, [], ◌∷◌,
  if◌then◌else◌,
}
use file_cipher_core.Entity.{PendingItem}
use file_cipher_core.Env.{Error, Result, ok, err, blocked, System, Exec, ctx_err, is_canceled}
use file_cipher_core.Retry.{LoopBackoff, or_canceled, wait, reset, sleep_ctx, timer_fires, woken}
use file_cipher_core.Repository.Stream.{read_group, claim}
use file_cipher_core.Pending.{PendingWorkerConfig, Fork, process}

module _ (cfg : PendingWorkerConfig) (consumer : ℕ) where
  -- `process`, whose error is only logged; the next state and the forks left.
  abbrev pub processed :
      List PendingItem
      → List Fork
      → System
      → (List Fork → Exec (Unit {0}))
      → Result (Unit {0}) × System
  processed [] forks s next = next forks s
  processed (i ∷ items) [] s next = (blocked, s)
  processed (i ∷ items) (f ∷ forks) s next = next forks (process cfg f (i ∷ items) s).1

  -- return ctx.Err()
  abbrev pub stopped : System → Result (Unit {0}) × System
  stopped s = (err (or_canceled (ctx_err s)), s)

  abbrev pub waited :
      Bool × LoopBackoff × System → (LoopBackoff → Exec (Unit {0})) → Result (Unit {0}) × System
  waited (true, b, s) next = next b s
  waited (false, b, s) next = stopped s

  -- One turn of readLoop behind its Read; `next` is the loop from here on.
  unfoldable pub read_turn :
      Result (List PendingItem) × System
      → List Fork
      → LoopBackoff
      → (List Fork → LoopBackoff → Exec (Unit {0}))
      → Result (Unit {0}) × System
  read_turn (blocked, s) forks b next = (blocked, s)
  read_turn (err e, s) forks b next = elim (ctx_err s) [
    | some c ↦ (err c, s)
    | none ↦ waited (wait b s) (next forks)
  ]
  read_turn (ok items, s) forks b next = processed items forks s (λ rest. next rest (reset b))

  unfoldable pub read_rounds : ℕ → List Fork → LoopBackoff → Exec (Unit {0})
  unfolding read_turn
  read_rounds zero forks b s = (blocked, s)
  read_rounds (suc fuel) forks b s = elim (ctx_err s) [
    | some c ↦ (err c, s)
    | none ↦
        read_turn (read_group consumer cfg.amount s) forks b (λ rest b'. read_rounds fuel rest b')
  ]

  unfoldable pub read_loop : ℕ → List Fork → Exec (Unit {0})
  unfolding read_rounds
  read_loop fuel forks =
      read_rounds fuel forks
        (record { base = cfg.read_backoff; cap = cfg.read_backoff_max; cur = 0 })

  -- The select at the end of a turn of claimLoop. The ticker ticks at `due` and then at every
  -- interval; of the ticks that nobody waits for it keeps one. If a tick and the cancellation are
  -- ready, the select takes either.
  abbrev pub takes_tick : ℕ → System → Bool
  takes_tick due s =
      if leb due s.now
      then (if is_canceled s.cancel_at s.now then s.timer_first s.now else true)
      else timer_fires s.timer_first s.cancel_at due

  abbrev pub at_tick : ℕ → System → System
  at_tick due s = record s { now = if leb due s.now then s.now else due }

  abbrev pub next_due : ℕ → ℕ → ℕ
  next_due due now = due + cfg.claim_interval * ((now - due) / cfg.claim_interval + 1)

  unfoldable pub ticked : ℕ → System → (ℕ → Exec (Unit {0})) → Result (Unit {0}) × System
  ticked due s next =
      let more = next (next_due due (at_tick due s).now) (at_tick due s) in
      if takes_tick due s then more else stopped (record s { now = woken s.cancel_at s.now })

  unfoldable pub claim_turn :
      Result (List PendingItem) × System
      → ℕ
      → List Fork
      → (ℕ → List Fork → Exec (Unit {0}))
      → Result (Unit {0}) × System
  unfolding ticked
  claim_turn (blocked, s) due forks next = (blocked, s)
  claim_turn (err e, s) due forks next = elim (ctx_err s) [
    | some c ↦ (err c, s)
    | none ↦ ticked due s (λ due'. next due' forks)
  ]
  claim_turn (ok items, s) due forks next =
      processed items forks s (λ rest t. ticked due t (λ due'. next due' rest))

  unfoldable pub claim_rounds : ℕ → ℕ → List Fork → Exec (Unit {0})
  unfolding claim_turn ticked
  claim_rounds zero due forks s = (blocked, s)
  claim_rounds (suc fuel) due forks s =
      claim_turn (claim consumer cfg.claim_min_idle cfg.amount s) due forks
        (λ due' rest. claim_rounds fuel due' rest)

  unfoldable pub claim_loop : ℕ → List Fork → Exec (Unit {0})
  unfolding claim_rounds
  claim_loop fuel forks s = claim_rounds fuel (s.now + cfg.claim_interval) forks s
