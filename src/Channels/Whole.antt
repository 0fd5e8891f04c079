-- ===== src/Channels/Whole.antt =====
-- What has become of the producer's jobs when the group returns nil.
use mathlib.Core.List.{Permᴰ}
use mathlib.Core.List.Permᴰ as PermD
use file_cipher_core.Prelude.{
  ℕ, ◌<◌, ◌≡◌, refl, subst, true, Option, none, List, [], ◌∷◌, ◌++◌, All, arith,
}
use file_cipher_core.Entity.{FlushItem}
use file_cipher_core.Env.{Error, ok, System, Exec}
use file_cipher_core.Channels.{
  all_over, Made, Pipe, start, Step, producer_sends, producer_returns, producer_stops, worker_makes,
  worker_fails, worker_sends, worker_returns, worker_stops, worker_drops, waiter_returns,
  flusher_receives, flusher_returns, flusher_stops, Event, own, flusher_fails, parent_cancels, Runs,
  here, more,
}
use file_cipher_core.Channels.Invariant.{Inv, runs-Inv}
use file_cipher_core.Channels.Places.{
  jobs_of, all_parts, sent_perm, made_perm, spoiled_perm, passed_perm, dropped_perm, received_perm,
}

All-snoc {ℓ κ} :
    {A : Type ℓ} (P : A → Type κ) (xs : List A) (a : A) → All P xs → P a → All P (xs ++ a ∷ [])
All-snoc P [] a h p = (p, tt)
All-snoc P (x ∷ xs) a (q, h) p = (q, All-snoc P xs a h p)

All-without {ℓ κ} :
    {A : Type ℓ} (P : A → Type κ) (xs : List A) (a : A) (ys : List A)
    → All P (xs ++ a ∷ ys)
    → P a × All P (xs ++ ys)
All-without P [] a ys h = h
All-without P (x ∷ xs) a ys (q, h) = let (p, r) = All-without P xs a ys h in (p, (q, r))

module _ {J : Type 0} (cap : ℕ) (step : J → Exec FlushItem) (ending : Option Error) where
  -- The item is what a worker makes of the job, in some state.
  abbrev pub IsMade : Made J → Type 0
  IsMade m = (s : System) × (t : System) × (step m.job s ≡ (ok m.item, t))

  record Accounts (todo : List J) (p : Pipe J) : Type 0 where
    places : Permᴰ todo (all_parts p)
    held : All IsMade p.held
    items : All IsMade p.items
    got : All IsMade p.got

  step_places : (p q : Pipe J) → Step cap step ending p q → Permᴰ (all_parts p) (all_parts q)
  step_places p q (producer_sends j rest a b c) =
      rw b (sent_perm j rest p.jobs p.held p.lost p.items p.got)
  step_places p q (producer_returns a b) = PermD.refl (all_parts p)
  step_places p q (producer_stops a b) = PermD.refl (all_parts p)
  step_places p q (worker_makes n j rest i s t a b c) =
      rw b (made_perm p.todo (record { job = j; item = i }) rest p.held p.lost p.items p.got)
  step_places p q (worker_fails n j rest e s t a b c) =
      rw b (spoiled_perm p.todo j rest p.held p.lost p.items p.got)
  step_places p q (worker_sends xs m ys a b) =
      rw a (passed_perm p.todo p.jobs xs m ys p.lost p.items p.got)
  step_places p q (worker_returns n a b c) = PermD.refl (all_parts p)
  step_places p q (worker_stops n a b) = PermD.refl (all_parts p)
  step_places p q (worker_drops xs m ys a b) =
      rw a (dropped_perm p.todo p.jobs xs m ys p.lost p.items p.got)
  step_places p q (waiter_returns a b c) = PermD.refl (all_parts p)
  step_places p q (flusher_receives m rest a b) =
      rw b (received_perm p.todo p.jobs p.held p.lost m rest p.got)
  step_places p q (flusher_returns a b c) = PermD.refl (all_parts p)
  step_places p q (flusher_stops a b) = PermD.refl (all_parts p)

  event_places : (p q : Pipe J) → Event cap step ending p q → Permᴰ (all_parts p) (all_parts q)
  event_places p q (own r m) = step_places p r m
  event_places p q (flusher_fails e a) = PermD.refl (all_parts p)
  event_places p q (parent_cancels a) = PermD.refl (all_parts p)

  AllMade : Pipe J → Type 0
  AllMade p = All IsMade p.held × (All IsMade p.items × All IsMade p.got)

  Step-made : (p q : Pipe J) → Step cap step ending p q → AllMade p → AllMade q
  unfolding AllMade
  Step-made p q (producer_sends j rest a b c) v = v
  Step-made p q (producer_returns a b) v = v
  Step-made p q (producer_stops a b) v = v
  Step-made p q (worker_makes n j rest i s t a b c) (h, v) = (((s, t, c), h), v)
  Step-made p q (worker_fails n j rest e s t a b c) v = v
  Step-made p q (worker_sends xs m ys a b) (h, (i, g)) =
      let (one, others) = All-without IsMade xs m ys (subst (All IsMade) a h) in
      (others, (All-snoc IsMade p.items m i one, g))
  Step-made p q (worker_returns n a b c) v = v
  Step-made p q (worker_stops n a b) v = v
  Step-made p q (worker_drops xs m ys a b) (h, v) =
      ((All-without IsMade xs m ys (subst (All IsMade) a h)).1, v)
  Step-made p q (waiter_returns a b c) v = v
  Step-made p q (flusher_receives m rest a b) (h, (i, g)) =
      let (one, others) = subst (All IsMade) b i in (h, (others, All-snoc IsMade p.got m g one))
  Step-made p q (flusher_returns a b c) v = v
  Step-made p q (flusher_stops a b) v = v

  event_made : (p q : Pipe J) → Event cap step ending p q → AllMade p → AllMade q
  unfolding AllMade
  event_made p q (own r m) v = Step-made p r m v
  event_made p q (flusher_fails e a) v = v
  event_made p q (parent_cancels a) v = v

  runs_places :
      (p q : Pipe J) (n : ℕ) → Runs cap step ending p n q → Permᴰ (all_parts p) (all_parts q)
  runs_places p q n here = PermD.refl (all_parts p)
  runs_places p q n (more k r t run e) = Permᴰ.trans (runs_places p r k run) (event_places r t e)

  runs_made : (p q : Pipe J) (n : ℕ) → Runs cap step ending p n q → AllMade p → AllMade q
  runs_made p q n here v = v
  runs_made p q n (more k r t run e) v = event_made r t e (runs_made p r k run v)

  start_places : (todo : List J) → Permᴰ todo (all_parts (start cap step ending todo))
  start_places todo = PermD.symm (PermD.append-nil todo)

  ended_places :
      (p : Pipe J)
      → 0 < cap
      → Inv cap step ending p
      → all_over p ≡ true
      → p.error ≡ none
      → all_parts p ≡ jobs_of p.got
  ended_places p workers v over fine =
      let all_sent : p.todo ≡ [] = ground (arith, v) in
      let none_held : p.held ≡ [] = ground (arith, v) in
      let none_queued : p.items ≡ [] = ground (arith, v) in
      let no_error : p.worker_error ≡ none = ground (arith, v) in
      let none_lost : p.lost ≡ [] = ground (arith, v) in
      let none_waits : p.jobs ≡ [] = ground (arith, v) in
      rw (all_sent, none_waits, none_held, none_lost, none_queued) refl

  -- If g.Wait returns nil, the flusher has received exactly the items of the jobs that the producer
  -- had to send: whatever order the goroutines ran in, the jobs of the received items are a
  -- permutation of the producer's, and each item was made of its job by a worker. There is at least
  -- one worker.
  pub group_whole :
      (todo : List J) (n : ℕ) (p : Pipe J)
      → 0 < cap
      → Runs cap step ending (start cap step ending todo) n p
      → all_over p ≡ true
      → p.error ≡ none
      → Permᴰ todo (jobs_of p.got) × All IsMade p.got
  unfolding AllMade
  group_whole todo n p workers run over fine = (
    subst (Permᴰ todo) (ended_places p workers (runs-Inv cap step ending todo n p run) over fine)
        (Permᴰ.trans (start_places todo) (runs_places (start cap step ending todo) p n run)),
    (runs_made (start cap step ending todo) p n run (tt, (tt, tt))).1.1,
  )
