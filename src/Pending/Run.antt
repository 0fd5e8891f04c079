-- ===== src/Pending/Run.antt =====
-- PendingWorker.Run of pending_worker.go: readLoop and claimLoop side by side, call by call, while
-- flushers add to the stream.
pub mod Order
pub mod Rows
pub mod State
pub mod Fetch
pub mod Write
pub mod Kept
use file_cipher_core.Prelude.{ℕ, ◌+◌, List, [], ◌∷◌, map, if◌then◌else◌}
use file_cipher_core.Entity.{FlushItem, PendingItem}
use file_cipher_core.Env.{Result, ok, err, blocked, Outcome, System, Exec, is_canceled}
use file_cipher_core.Repository.Stream.{add_batch, read_group, ack, claim}
use file_cipher_core.Pending.{PendingWorkerConfig, Fork, write_both}

-- Where a loop is: before its next Read or Claim, in `process` before the group that writes, in
-- `process` before the Ack, or returned.
pub data Phase : Type 0 where
  idle : Phase
  holding : List PendingItem → Phase
  saved : List PendingItem → Phase
  returned : Phase

pub data Loop : Type 0 where
  reads claims : Loop

pub data Move : Type 0 where
  fetches : Outcome → Move
  writes : Fork → Move
  acks : Outcome → Move
  stops : Move

pub data Action : Type 0 where
  adds : List FlushItem → Outcome → Action  -- a flusher's AddBatch
  passes : ℕ → Action  -- time goes by
  does : Loop → Move → Action  -- a loop's next call

pub record Worker : Type 0 where
  pub system : System
  pub reading : Phase
  pub claiming : Phase

abbrev pub answering : Outcome → System → System
answering o s = record s { script = o ∷ [] }

abbrev pub fetched : Result (List PendingItem) → Phase
fetched (ok []) = idle
fetched (ok (i ∷ items)) = holding (i ∷ items)
fetched (err e) = idle
fetched blocked = idle

abbrev pub after_write : List PendingItem → Result (Unit {0}) → Phase
after_write items (ok v) = saved items
after_write items (err e) = idle
after_write items blocked = idle

module _ (cfg : PendingWorkerConfig) (consumer : ℕ) where
  unfoldable pub fetch : Loop → Exec (List PendingItem)
  fetch reads = read_group consumer cfg.amount
  fetch claims = claim consumer cfg.claim_min_idle cfg.amount

  -- A move of a loop; one that is not next where the loop is has no effect.
  unfoldable pub move : Loop → Move → Phase → System → Phase × System
  unfolding fetch
  move l (fetches o) idle s = let (r, t) = fetch l (answering o s) in (fetched r, t)
  move l (writes f) (holding items) s =
      let (r, t) =
        write_both cfg f (map (λ i. i.item.key) items) (map (λ i. i.item.chunk) items) s in
      (after_write items r, t)
  move l (acks o) (saved items) s = (idle, (ack (map (λ i. i.id) items) (answering o s)).1)
  move l stops idle s = (if is_canceled s.cancel_at s.now then returned else idle, s)
  move l m p s = (p, s)

  unfoldable pub act : Action → Worker → Worker
  unfolding move
  act (adds items o) w = record w { system = (add_batch items (answering o w.system)).1 }
  act (passes n) w = record w { system = record w.system { now = w.system.now + n } }
  act (does reads m) w =
      let (p, t) = move reads m w.reading w.system in record w { system = t; reading = p }
  act (does claims m) w =
      let (p, t) = move claims m w.claiming w.system in record w { system = t; claiming = p }

  unfoldable pub turns : List Action → Worker → Worker
  unfolding act
  turns [] w = w
  turns (a ∷ actions) w = turns actions (act a w)

-- Run at its start.
unfoldable pub begin : System → Worker
begin s = record { system = s; reading = idle; claiming = idle }
