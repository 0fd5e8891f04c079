-- ===== src/Pending.antt =====
-- internal/service/pending_worker.go: entries of the stream are written to both databases, and
-- acknowledged when both writes went through.
pub mod Process
pub mod Drops
pub mod Loops
pub mod Run
use file_cipher_core.Prelude.{
  ℕ, zero, suc, ◌+◌, max, Bool, true, false, Option, none, some, List, [], ◌∷◌, map, if◌then◌else◌,
}
use file_cipher_core.Entity.{ChunkData, ChunkKey, PendingItem}
use file_cipher_core.Env.{
  Error, write_pending, Result, ok, err, blocked, Outcome, System, Exec, ◌>>=◌, ◌>>◌, wrapping,
  chain,
}
use file_cipher_core.Env
use file_cipher_core.Retry.{RetryConfig, retry_do}
use file_cipher_core.Repository.Tables.{save_keys, save_data}
use file_cipher_core.Repository.Stream.{ack}

pub record PendingWorkerConfig : Type 0 where
  pub amount : ℕ
  pub claim_interval : ℕ
  pub claim_min_idle : ℕ
  pub retry : RetryConfig
  pub read_backoff : ℕ
  pub read_backoff_max : ℕ

-- How the two goroutines of `process` run: the outcomes of their calls, when the group's context is
-- cancelled for each (by the other's failure or by the parent), and whose error is the first.
pub record Fork : Type 0 where
  pub keys_script : List Outcome
  pub data_script : List Outcome
  pub keys_cancel : Option ℕ
  pub data_cancel : Option ℕ
  pub keys_first : Bool

abbrev pub branch : List Outcome → Option ℕ → System → System
branch script cancel s = record s { script = script; cancel_at = cancel }

-- errgroup.Wait: nil if both returned nil, else the first error
unfoldable pub first_error : Bool → Result (Unit {0}) → Result (Unit {0}) → Result (Unit {0})
first_error keys_first blocked r = blocked
first_error keys_first r blocked = blocked
first_error keys_first (ok _) r = r
first_error keys_first r (ok _) = r
first_error true (err e) (err e') = err e
first_error false (err e) (err e') = err e'

module _ (cfg : PendingWorkerConfig) where
  -- The two writes, each to its own table; the group waits for both.
  unfoldable pub write_both : Fork → List ChunkKey → List ChunkData → Exec (Unit {0})
  unfolding first_error
  write_both f keys rows s =
      let (rk, sk) = retry_do cfg.retry (save_keys keys) (branch f.keys_script f.keys_cancel s) in
      let (rd, sd) = retry_do cfg.retry (save_data rows) (branch f.data_script f.data_cancel s) in
      (
        first_error f.keys_first rk rd,
        record s { now = max sk.now sd.now; keys = sk.keys; chunks = sd.chunks },
      )

  unfoldable pub process : Fork → List PendingItem → Exec (Unit {0})
  unfolding write_both
  process f items = do
    let keys = map (λ i. i.item.key) items
    let rows = map (λ i. i.item.chunk) items
    wrapping write_pending (write_both f keys rows)
    wrapping Env.ack_pending (ack (map (λ i. i.id) items))
