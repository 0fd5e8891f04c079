-- ===== src/Channels/Invariant.antt =====
-- What holds of the channels and the group in every state of a run.
use file_cipher_core.Prelude.{
  ℕ, suc, ◌+◌, ◌<◌, ◌≤◌, ◌≡◌, ap, true, Option, none, List, [], ◌∷◌, ◌++◌, length, length-append,
  arith,
}
use file_cipher_core.Entity.{FlushItem}
use file_cipher_core.Env.{Error, Exec}
use file_cipher_core.Channels.{
  Ending, running, finished, failed, is_over, Made, Pipe, is_some, start, Step, producer_sends,
  producer_returns, producer_stops, worker_makes, worker_fails, worker_sends, worker_returns,
  worker_stops, worker_drops, waiter_returns, flusher_receives, flusher_returns, flusher_stops,
  Event, own, flusher_fails, parent_cancels, Runs, here, more,
}

pub split_length :
    {J : Type 0} (xs : List (Made J)) (m : Made J) (ys l : List (Made J))
    → l ≡ xs ++ m ∷ ys
    → length l ≡ suc (length (xs ++ ys))
split_length xs m ys l h =
    omega (arith, ap length h, length-append xs (m ∷ ys), length-append xs ys)

module _ {J : Type 0} (cap : ℕ) (step : J → Exec FlushItem) (ending : Option Error) where
  -- A goroutine that ended with an error has told the group.
  abbrev Blames : Ending → Option Error → Type 0
  Blames running e = Unit {0}
  Blames finished e = Unit {0}
  Blames (failed x) e = is_some e ≡ true

  pub record Inv (p : Pipe J) : Type 0 where
    pub producer_blames : Blames p.producer p.error
    pub waiter_blames : Blames p.waiter p.error
    pub flusher_blames : Blames p.flusher p.error
    pub all_sent : p.producer ≡ finished → p.todo ≡ []
    pub clean : p.producer ≡ finished → ending ≡ none
    pub at_most : p.idle + length p.held ≤ cap
    pub nothing_lost : p.worker_error ≡ none → p.lost ≡ []
    pub returned_early :
        p.worker_error ≡ none
        → p.idle + length p.held < cap
        → (is_over p.producer ≡ true) × (p.jobs ≡ [])
    pub waited : is_over p.waiter ≡ true → (p.idle ≡ 0) × (p.held ≡ [])
    pub no_error : p.waiter ≡ finished → p.worker_error ≡ none
    pub drained : p.flusher ≡ finished → (is_over p.waiter ≡ true) × (p.items ≡ [])

  Step-Inv : (p q : Pipe J) → Step cap step ending p q → Inv p → Inv q
  Step-Inv p q (producer_sends j rest a b c) v = ground (arith, v)
  Step-Inv p q (producer_returns a b) v = ground (arith, v)
  Step-Inv p q (producer_stops a b) v = ground (arith, v)
  Step-Inv p q (worker_makes n j rest i s t a b c) v = ground (arith, v)
  Step-Inv p q (worker_fails n j rest e s t a b c) v = ground (arith, v)
  Step-Inv p q (worker_sends xs m ys a b) v = ground (arith, v, split_length xs m ys p.held a)
  Step-Inv p q (worker_returns n a b c) v = ground (arith, v)
  Step-Inv p q (worker_stops n a b) v = ground (arith, v)
  Step-Inv p q (worker_drops xs m ys a b) v = ground (arith, v, split_length xs m ys p.held a)
  Step-Inv p q (waiter_returns a b c) v = ground (arith, v)
  Step-Inv p q (flusher_receives m rest a b) v = ground (arith, v)
  Step-Inv p q (flusher_returns a b c) v = ground (arith, v)
  Step-Inv p q (flusher_stops a b) v = ground (arith, v)

  event-Inv : (p q : Pipe J) → Event cap step ending p q → Inv p → Inv q
  event-Inv p q (own r m) v = Step-Inv p r m v
  event-Inv p q (flusher_fails e a) v = ground (arith, v)
  event-Inv p q (parent_cancels a) v = ground (arith, v)

  start-Inv : (todo : List J) → Inv (start cap step ending todo)
  start-Inv todo = ground arith

  pub runs-Inv :
      (todo : List J) (n : ℕ) (q : Pipe J)
      → Runs cap step ending (start cap step ending todo) n q
      → Inv q
  runs-Inv todo n q here = start-Inv todo
  runs-Inv todo n q (more k p r run e) = event-Inv p r e (runs-Inv todo k p run)
