-- ===== src/Pending/Run/Kept.antt =====
-- PendingWorker.Run with the flushers: no entry of the stream is lost on its way to the tables.
use file_cipher_core.Prelude.{ℕ, ◌≡◌, refl, List, [], ◌∷◌}
use file_cipher_core.Entity.{PendingItem}
use file_cipher_core.Env.{
  write_pending, ack_pending, Result, ok, err, blocked, Outcome, System, chain, wrapped, wrapping,
}
use file_cipher_core.Repository.Stream.{ack, entry_ids}
use file_cipher_core.Pending.{PendingWorkerConfig, Fork, write_both, process}
use file_cipher_core.Pending.Process.{keys_of, rows_of}
use file_cipher_core.Pending.Run.{
  Phase, holding, reads, claims, Move, writes, Action, adds, passes, does, Worker, answering, act,
}
use file_cipher_core.Pending.Run.State.{Sound, Later, Held}
use file_cipher_core.Pending.Run.Write.{CleanWrite}

abbrev pub CleanMove : Move → Phase → System → Type 0
CleanMove (writes f) (holding items) s = CleanWrite f items s
CleanMove m p s = Unit {0}

abbrev pub CleanAction : Action → Worker → Type 0
CleanAction (adds items o) w = Unit {0}
CleanAction (passes n) w = Unit {0}
CleanAction (does reads m) w = CleanMove m w.reading w.system
CleanAction (does claims m) w = CleanMove m w.claiming w.system

module _ (cfg : PendingWorkerConfig) (c : ℕ) where
  -- Each batch is written to tables that hold, each, none of its rows or all of them.
  abbrev pub CleanRun : List Action → Worker → Type 0
  CleanRun [] w = Unit {0}
  CleanRun (a ∷ actions) w = CleanAction a w × CleanRun actions (act cfg c a w)

  -- What a move of a loop leaves.
  record After (s : System) (q : Phase × System) : Type 0 where
    pub sound : Sound q.1
    pub held : Held q.0 q.1
    pub later : Later s q.1

  record Whole (s : System) (w : Worker) : Type 0 where
    pub sound : Sound w.system
    pub reading : Held w.reading w.system
    pub claiming : Held w.claiming w.system
    pub later : Later s w.system

module _ (cfg : PendingWorkerConfig) (f : Fork) (items : List PendingItem) (o : Outcome) where
  acked_after :
      (p : Result (Unit {0}) × System)
      → p.0 ≡ ok tt
      → (chain
          (wrapped write_pending p.0, answering o p.1)
          (λ _. wrapping ack_pending (ack (entry_ids items)))).1
        ≡ (ack (entry_ids items) (answering o p.1)).1
  acked_after (ok tt, t) h = refl
  acked_after (err e, t) h = cc
  acked_after (blocked, t) h = cc

  -- The two moves behind a Read are `process`.
  process_moves :
      (s : System)
      → (write_both cfg f (keys_of items) (rows_of items) s).0 ≡ ok tt
      → (process cfg f items (answering o s)).1
        ≡ (ack
            (entry_ids items)
            (answering o (write_both cfg f (keys_of items) (rows_of items) s).1)).1
  unfolding process write_both
  process_moves s h = acked_after (write_both cfg f (keys_of items) (rows_of items) s) h
