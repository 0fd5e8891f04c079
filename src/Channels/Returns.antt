-- ===== src/Channels/Returns.antt =====
-- A run of the group is bounded.
use file_cipher_core.Prelude.{
  ℕ, zero, suc, ◌+◌, ◌*◌, ◌≤◌, ◌<◌, ◌≡◌, ap, Bool-cases, inl, inr, Bool, true, false, Option, List,
  [], ◌∷◌, length, length-append, arith,
}
use file_cipher_core.Entity.{FlushItem}
use file_cipher_core.Env.{Error, Exec}
use file_cipher_core.Channels.{
  Ending, running, finished, failed, Pipe, start, Step, producer_sends, producer_returns,
  producer_stops, worker_makes, worker_fails, worker_sends, worker_returns, worker_stops,
  worker_drops, waiter_returns, flusher_receives, flusher_returns, flusher_stops, Event, own,
  flusher_fails, parent_cancels, Runs, here, more, all_over,
}
use file_cipher_core.Channels.Invariant.{split_length}
use file_cipher_core.Channels.Progress.{Ends, group_moves}

abbrev runs : Ending → ℕ
runs running = 1
runs finished = 0
runs (failed e) = 0

abbrev open_parent : Bool → ℕ
open_parent true = 0
open_parent false = 1

module _ {J : Type 0} where
  abbrev work : Pipe J → ℕ
  work p =
      8 * length p.todo
      + 6 * length p.jobs
      + 4 * length p.held
      + 2 * length p.items
      + p.idle
      + runs p.producer
      + runs p.waiter
      + runs p.flusher
      + open_parent p.parent_done

module _ {J : Type 0} (cap : ℕ) (step : J → Exec FlushItem) (ending : Option Error) where
  Step-works : (p q : Pipe J) → Step cap step ending p q → work q < work p
  Step-works p q (producer_sends j rest a b c) =
      omega (arith, ap length b, length-append p.jobs (j ∷ []))
  Step-works p q (producer_returns a b) = ground arith
  Step-works p q (producer_stops a b) = ground arith
  Step-works p q (worker_makes n j rest i s t a b c) = omega (arith, a, ap length b)
  Step-works p q (worker_fails n j rest e s t a b c) = omega (arith, a, ap length b)
  Step-works p q (worker_sends xs m ys a b) =
      omega (arith, split_length xs m ys p.held a, length-append p.items (m ∷ []))
  Step-works p q (worker_returns n a b c) = omega (arith, a)
  Step-works p q (worker_stops n a b) = omega (arith, a)
  Step-works p q (worker_drops xs m ys a b) = omega (arith, split_length xs m ys p.held a)
  Step-works p q (waiter_returns a b c) = ground arith
  Step-works p q (flusher_receives m rest a b) = omega (arith, ap length b)
  Step-works p q (flusher_returns a b c) = ground arith
  Step-works p q (flusher_stops a b) = ground arith

  event_works : (p q : Pipe J) → Event cap step ending p q → work q < work p
  event_works p q (own r m) = Step-works p r m
  event_works p q (flusher_fails e a) = ground arith
  event_works p q (parent_cancels a) = ground arith

  runs_work : (p q : Pipe J) (n : ℕ) → Runs cap step ending p n q → n + work q ≤ work p
  runs_work p q n here = omega arith
  runs_work p q n (more k r t run e) = omega (arith, runs_work p r k run, event_works r t e)

  -- `q` is reached from `p` by steps of the group's own.
  pub data Goes (p : Pipe J) : Pipe J → Type 0 where
    stays : Goes p p
    steps : (q r : Pipe J) → Goes p q → Step cap step ending q r → Goes p r

  Goes-first : (p q r : Pipe J) → Step cap step ending p q → Goes q r → Goes p r
  Goes-first p q r m stays = steps p q stays m
  Goes-first p q r m (steps s t g k) = steps s t (Goes-first p q s m g) k

  module _ (ends : (j : J) → Ends step j) (workers : 0 < cap) where
    ends_up :
        (m : ℕ) (todo : List J) (n : ℕ) (p : Pipe J)
        → Runs cap step ending (start cap step ending todo) n p
        → work p ≤ m
        → (q : Pipe J) × Goes p q × (all_over q ≡ true)
    ends_up zero todo n p run h = elim (Bool-cases (all_over p)) [
      | inl over ↦ (p, stays, over)
      | inr going ↦
          let (q, m) = group_moves cap step ending ends workers todo n p run going in
          absurd (omega (arith, Step-works p q m))
    ]
    ends_up (suc k) todo n p run h = elim (Bool-cases (all_over p)) [
      | inl over ↦ (p, stays, over)
      | inr going ↦
          let (q, m) = group_moves cap step ending ends workers todo n p run going in
          let (r, g, over) =
            ends_up k todo (suc n) q (more n p q run (own q m)) (omega (arith, Step-works p q m)) in
          (r, Goes-first p q r m g, over)
    ]

    -- g.Wait returns. Let there be at least one worker, and let the work on each job come to an end,
    -- with an item or an error. Then, whatever failures and cancellations a run of the group has
    -- met, it has at most 8 * length todo + cap + 4 events, and from where it is the group can go on
    -- by steps of its own to a state in which all three goroutines are over.
    pub group_returns :
        (todo : List J) (n : ℕ) (p : Pipe J)
        → Runs cap step ending (start cap step ending todo) n p
        → (n ≤ 8 * length todo + cap + 4) × (q : Pipe J) × Goes p q × (all_over q ≡ true)
    group_returns todo n p run =
        let (q, g, over) = ends_up (work p) todo n p run (omega arith) in
        (omega (arith, runs_work (start cap step ending todo) p n run), q, g, over)
