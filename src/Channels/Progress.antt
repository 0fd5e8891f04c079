-- ===== src/Channels/Progress.antt =====
-- The group does not get stuck.
use file_cipher_core.Prelude.{
  ℕ, zero, suc, ◌<◌, ◌≡◌, refl, true, false, Option, none, some, List, [], ◌∷◌, length, arith,
}
use file_cipher_core.Entity.{FlushItem}
use file_cipher_core.Env.{Error, ok, err, System, Exec}
use file_cipher_core.Channels.{
  Ending, running, finished, failed, is_over, all_over, Made, Pipe, start, Step, producer_sends,
  producer_returns, producer_stops, worker_makes, worker_fails, worker_sends, worker_returns,
  worker_stops, worker_drops, waiter_returns, flusher_receives, flusher_returns, flusher_stops, own,
  Runs, here, more,
}
use file_cipher_core.Channels.Invariant.{Inv, runs-Inv}

-- A worker's work on a job comes to an end, with an item or an error.
pub data Ends {J : Type 0} (step : J → Exec FlushItem) (j : J) : Type 0 where
  makes : (i : FlushItem) (s t : System) → step j s ≡ (ok i, t) → Ends step j
  breaks : (e : Error) (s t : System) → step j s ≡ (err e, t) → Ends step j

module _ {J : Type 0} (cap : ℕ) (step : J → Exec FlushItem) (ending : Option Error)
    (ends : (j : J) → Ends step j) (workers : 0 < cap) where
  abbrev Moves : Pipe J → Type 0
  Moves p = (q : Pipe J) × Step cap step ending p q

  taken :
      (p : Pipe J) (n : ℕ) (j : J) (rest : List J) → p.idle ≡ suc n → p.jobs ≡ j ∷ rest → Moves p
  taken p n j rest a b = elim (ends j) [
    | makes i s t e ↦ (_, worker_makes n j rest i s t a b e)
    | breaks x s t e ↦ (_, worker_fails n j rest x s t a b e)
  ]

  -- The producer is over or can go on, where there is room.
  producer_moves : (p : Pipe J) → p.producer ≡ running → length p.jobs < cap → Moves p
  producer_moves p a room = by p.todo refl
    where
      by : (todo : List J) → p.todo ≡ todo → Moves p
      by [] e = (_, producer_returns a e)
      by (j ∷ rest) e = (_, producer_sends j rest a e room)

  -- The goroutines behind the workers, when these are gone.
  flusher_moves : (p : Pipe J) → p.flusher ≡ running → is_over p.waiter ≡ true → Moves p
  flusher_moves p a over = by p.items refl
    where
      by : (items : List (Made J)) → p.items ≡ items → Moves p
      by [] e = (_, flusher_returns a e over)
      by (m ∷ rest) e = (_, flusher_receives m rest a e)

  -- A worker that holds an item sends it, or the flusher makes room, or the group is cancelled.
  held_moves :
      (p : Pipe J) (m : Made J) (behind : List (Made J))
      → Inv cap step ending p
      → p.held ≡ m ∷ behind
      → Moves p
  held_moves p m behind v a = by p.flusher refl p.items refl
    where
      by : (f : Ending) → p.flusher ≡ f → (items : List (Made J)) → p.items ≡ items → Moves p
      by (failed x) e items k = (_, worker_drops [] m behind a (ground (arith, v)))
      by finished e items k = absurd (ground (arith, v))
      by running e [] k = (_, worker_sends [] m behind a (ground arith))
      by running e (x ∷ rest) k = (_, flusher_receives x rest e k)

  idle_moves : (p : Pipe J) (n : ℕ) → p.idle ≡ suc n → Moves p
  idle_moves p n a = by p.jobs refl p.producer refl
    where
      by : (jobs : List J) → p.jobs ≡ jobs → (r : Ending) → p.producer ≡ r → Moves p
      by (j ∷ rest) e r k = taken p n j rest a e
      by [] e running k = producer_moves p k (ground arith)
      by [] e finished k = (_, worker_returns n a e (ground arith))
      by [] e (failed x) k = (_, worker_returns n a e (ground arith))

  -- Without workers: their goroutine returns, the producer sees the cancelled context, the flusher
  -- empties its channel.
  workerless_moves :
      (p : Pipe J) → Inv cap step ending p → p.idle ≡ 0 → p.held ≡ [] → all_over p ≡ false → Moves p
  workerless_moves p v a b h = by p.waiter refl p.producer refl p.flusher refl p.worker_error refl
    where
      by :
          (w : Ending)
          → p.waiter ≡ w
          → (r : Ending) → p.producer ≡ r
          → (f : Ending) → p.flusher ≡ f
          → (o : Option Error) → p.worker_error ≡ o
          → Moves p
      by running e r k f l o d = (_, waiter_returns e a b)
      by finished e running k f l none d = absurd (ground (arith, v))
      by finished e running k f l (some x) d = absurd (ground (arith, v))
      by (failed x) e running k f l o d = (_, producer_stops k (ground (arith, v)))
      by finished e finished k running l o d = flusher_moves p l (ground arith)
      by finished e (failed y) k running l o d = flusher_moves p l (ground arith)
      by (failed x) e finished k running l o d = flusher_moves p l (ground arith)
      by (failed x) e (failed y) k running l o d = flusher_moves p l (ground arith)
      by w e r k f l o d = absurd (ground arith)

  -- The group never gets stuck. Let there be at least one worker, and let the work on each job come
  -- to an end, with an item or an error. In every state of a run, whatever failures and
  -- cancellations came before, either all three goroutines of the group are over or one of them, or
  -- a worker, can take a step of its own.
  pub group_moves :
      (todo : List J) (n : ℕ) (p : Pipe J)
      → Runs cap step ending (start cap step ending todo) n p
      → all_over p ≡ false
      → Moves p
  group_moves todo n p run h = by p.held refl p.idle refl
    where
      by : (held : List (Made J)) → p.held ≡ held → (idle : ℕ) → p.idle ≡ idle → Moves p
      by (m ∷ behind) a idle b = held_moves p m behind (runs-Inv cap step ending todo n p run) a
      by [] a (suc k) b = idle_moves p k b
      by [] a zero b = workerless_moves p (runs-Inv cap step ending todo n p run) b a h

-- The group without workers, when the waiter and the flusher have returned.
abbrev pub workerless : {J : Type 0} → List J → Pipe J
workerless todo = record {
  todo = todo;
  jobs = [];
  producer = running;
  idle = 0;
  held = [];
  worker_error = none;
  lost = [];
  items = [];
  waiter = finished;
  got = [];
  flusher = finished;
  error = none;
  parent_done = false;
}

module _ {J : Type 0} (step : J → Exec FlushItem) (ending : Option Error) where
  -- With no workers (Workers is 0) a call that has something to send hangs: the group comes to a
  -- state in which the producer still runs, none of the goroutines can take a step, and no error has
  -- been noted; only the parent's context can end it.
  pub workerless_stuck :
      (j : J) (rest : List J)
      → Runs 0 step ending (start 0 step ending (j ∷ rest)) 2 (workerless (j ∷ rest))
        × ((q : Pipe J) → ¬ Step 0 step ending (workerless (j ∷ rest)) q)
  workerless_stuck j rest = (
    more 1 _ _ (more 0 _ _ here (own _ (waiter_returns refl refl refl)))
        (own _ (flusher_returns refl refl refl)),
    stuck j rest,
  )
    where
      stuck :
          (j : J) (rest : List J) (q : Pipe J) → Step 0 step ending (workerless (j ∷ rest)) q → ⊥
      stuck j rest q (producer_sends j' rest' a b c) = ground arith
      stuck j rest q (producer_returns a b) = ground arith
      stuck j rest q (producer_stops a b) = ground arith
      stuck j rest q (worker_makes n j' rest' i s t a b c) = ground arith
      stuck j rest q (worker_fails n j' rest' e s t a b c) = ground arith
      stuck j rest q (worker_sends [] m ys a b) = ground arith
      stuck j rest q (worker_sends (x ∷ xs) m ys a b) = ground arith
      stuck j rest q (worker_returns n a b c) = ground arith
      stuck j rest q (worker_stops n a b) = ground arith
      stuck j rest q (worker_drops xs m ys a b) = ground arith
      stuck j rest q (waiter_returns a b c) = ground arith
      stuck j rest q (flusher_receives m rest' a b) = ground arith
      stuck j rest q (flusher_returns a b c) = ground arith
      stuck j rest q (flusher_stops a b) = ground arith
