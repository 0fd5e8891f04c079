-- ===== src/Server.antt =====
-- cmd/server/main.go: the services' configurations, and the pools of the two databases.
pub mod Pools
use Prim.Native.String.{String}
use file_cipher_core.Prelude.{
  ℕ, zero, suc, ◌+◌, ◌-◌, ◌%◌, ◌^◌, Bool, true, false, Option, none, some, List, [], ◌∷◌, keep, not,
  ltb, ◌==◌, if◌then◌else◌,
}
use file_cipher_core.Env.{wrap, parse_pool_config, create_pool, ping, Result, ok, err, blocked}
use file_cipher_core.Retry.{ℤ, pos, negsuc, RetryConfig}
use file_cipher_core.Config.{Config, Db, connection_string}
use file_cipher_core.Flusher.{FlusherConfig}
use file_cipher_core.Pending.{PendingWorkerConfig}
use file_cipher_core.Upload.{CipherConfig}
use file_cipher_core.Rotation.{RotatorConfig}
use file_cipher_core.Decipher.{DecipherConfig}

-- What main builds the services with.
pub record Services : Type 0 where
  pub flusher : FlusherConfig
  pub pending : PendingWorkerConfig
  pub cipher : CipherConfig
  pub rotator : RotatorConfig
  pub decipher : DecipherConfig
  pub cursor_ttl : ℕ

unfoldable pub services : Config → Services
services c =
    let retry : RetryConfig = record { attempts = c.retry.attempts; backoff = c.retry.backoff } in
    record {
      flusher = record {
        batch_size = c.flusher.batch_size;
        flush_time = c.flusher.flush_time;
        shutdown_flush_timeout = c.flusher.shutdown_flush_timeout;
        retry = retry;
      };
      pending = record {
        amount = c.pending.amount;
        claim_interval = c.pending.claim_interval;
        claim_min_idle = c.pending.claim_min_idle;
        retry = retry;
        read_backoff = c.pending.read_backoff;
        read_backoff_max = c.pending.read_backoff_max;
      };
      cipher = record { chunk_size = c.cipher.chunk_size; workers = c.cipher.workers };
      rotator = record {
        page_size = c.rotation.page_size;
        workers = c.rotation.workers;
        retry = retry;
      };
      decipher = record { page_size = c.decipher.page_size; retry = retry };
      cursor_ttl = c.redis.cursor_ttl;
    }

-- int32(n): the lower 32 bits, read with a sign.
abbrev pub signed_32 : ℕ → ℤ
signed_32 low = if ltb low (2 ^ 31) then pos low else negsuc (2 ^ 32 - 1 - low)

abbrev pub to_int32 : ℤ → ℤ
to_int32 (pos n) = signed_32 (n % 2 ^ 32)
to_int32 (negsuc n) = signed_32 (2 ^ 32 - 1 - n % 2 ^ 32)

-- `if n > 0 { limit = int32(n) }`
unfoldable pub limit : ℤ → ℤ → ℤ
limit (pos zero) old = old
limit (pos (suc n)) old = to_int32 (pos (suc n))
limit (negsuc n) old = old

-- pgxpool.Config
pub record PoolConfig : Type 0 where
  pub max_conns : ℤ
  pub min_conns : ℤ

-- pgxpool: how a connection string is parsed, whether a pool can be made of a configuration, and
-- whether it answers a ping.
pub record Postgres : Type 0 where
  pub parse_config : String → Result PoolConfig
  pub make : PoolConfig → Result (Unit {0})
  pub answer : Result (Unit {0})

-- The pool's result, and how many pools are open.
abbrev pub Opened : Type 0
Opened = Result (Unit {0}) × ℕ

abbrev pub pinged : Result (Unit {0}) → ℕ → Opened
pinged (ok v) n = (ok tt, n)
pinged (err e) n = (err (wrap ping e), n - 1)
pinged blocked n = (blocked, n)

abbrev pub made : Result (Unit {0}) → Result (Unit {0}) → ℕ → Opened
made (ok v) answer n = pinged answer (n + 1)
made (err e) answer n = (err (wrap create_pool e), n)
made blocked answer n = (blocked, n)

unfoldable pub limited : Db → PoolConfig → PoolConfig
unfolding limit
limited d c = record {
  max_conns = limit d.max_conns c.max_conns;
  min_conns = limit d.min_conns c.min_conns;
}

abbrev pub parsed : Postgres → Db → Result PoolConfig → ℕ → Opened
parsed pg d (ok c) n = made (pg.make (limited d c)) pg.answer n
parsed pg d (err e) n = (err (wrap parse_pool_config e), n)
parsed pg d blocked n = (blocked, n)

-- newPool, where `n` pools are open before.
unfoldable pub new_pool : Postgres → Db → ℕ → Opened
unfolding limited
new_pool pg d n = parsed pg d (pg.parse_config (connection_string d)) n
