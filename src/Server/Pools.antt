-- ===== src/Server/Pools.antt =====
-- newPool of cmd/server/main.go: the limits that a pool gets, and the pools that stay open.
use file_cipher_core.Prelude.{ℕ, zero, suc, ◌+◌, ◌^◌, ◌<◌, ◌≡◌, ◌↔◌, refl, arith}
use file_cipher_core.Env.{Result, ok, err, blocked}
use file_cipher_core.Retry.{ℤ, pos, negsuc}
use file_cipher_core.Config.{Db, connection_string}
use file_cipher_core.Server.{limit, PoolConfig, Postgres, Opened, made, limited, parsed, new_pool}

-- A limit above zero reaches the pool as it is exactly if it is below 2^31.
pub limit_iff : (n : ℕ) (old : ℤ) → (limit (pos (suc n)) old ≡ pos (suc n)) ↔ (suc n < 2 ^ 31)
unfolding limit
limit_iff n old = ground arith

-- The limit that a pool gets: a positive setting as it is, exactly if it is below 2^31; with a setting
-- that is not positive, the connection string's.
abbrev pub LimitOf : ℤ → ℤ → ℤ → Type 0
LimitOf (pos zero) old got = got ≡ old
LimitOf (pos (suc n)) old got = (got ≡ pos (suc n)) ↔ (suc n < 2 ^ 31)
LimitOf (negsuc n) old got = got ≡ old

-- A pool that was made: of the parsed connection string, with the settings' limits in its place; and
-- it has answered the ping.
pub record IsMade (pg : Postgres) (d : Db) : Type 0 where
  pub base : PoolConfig
  pub pool : PoolConfig
  pub of_string : pg.parse_config (connection_string d) ≡ ok base
  pub accepted : pg.make pool ≡ ok tt
  pub pings : pg.answer ≡ ok tt
  pub max_conns : LimitOf d.max_conns base.max_conns pool.max_conns
  pub min_conns : LimitOf d.min_conns base.min_conns pool.min_conns

-- What newPool leaves, with `n` pools open before it.
abbrev pub Leaves : Postgres → Db → ℕ → Opened → Type 0
Leaves pg d n (ok v, k) = (k ≡ n + 1) × IsMade pg d
Leaves pg d n (err e, k) = k ≡ n
Leaves pg d n (blocked, k) = Unit {0}

limit-LimitOf : (m old : ℤ) → LimitOf m old (limit m old)
unfolding limit
limit-LimitOf (pos zero) old = refl
limit-LimitOf (pos (suc n)) old = limit_iff n old
limit-LimitOf (negsuc n) old = refl

made-Leaves :
    (pg : Postgres) (d : Db) (n : ℕ) (c : PoolConfig)
    → pg.parse_config (connection_string d) ≡ ok c
    → (r q : Result (Unit {0})) → pg.make (limited d c) ≡ r
    → pg.answer ≡ q
    → Leaves pg d n (made r q n)
unfolding limited
made-Leaves pg d n c h (err e) q a b = refl
made-Leaves pg d n c h blocked q a b = tt
made-Leaves pg d n c h (ok v) (err e) a b = omega arith
made-Leaves pg d n c h (ok v) blocked a b = tt
made-Leaves pg d n c h (ok v) (ok w) a b = (
  refl,
  record {
    base = c;
    pool = limited d c;
    of_string = h;
    accepted = a;
    pings = b;
    max_conns = limit-LimitOf d.max_conns c.max_conns;
    min_conns = limit-LimitOf d.min_conns c.min_conns;
  },
)

parsed-Leaves :
    (pg : Postgres) (d : Db) (n : ℕ) (r : Result PoolConfig)
    → pg.parse_config (connection_string d) ≡ r
    → Leaves pg d n (parsed pg d r n)
parsed-Leaves pg d n (ok c) h = made-Leaves pg d n c h (pg.make (limited d c)) pg.answer refl refl
parsed-Leaves pg d n (err e) h = refl
parsed-Leaves pg d n blocked h = tt

-- newPool leaves a pool open exactly when it returns one. If it returns nil, there is one open pool
-- more, which was made of the parsed connection string and has answered the ping, and a positive
-- limit of the settings is the pool's limit exactly if it is below 2^31 (from there on the
-- conversion to int32 changes it), while any other leaves the string's limit. If it returns an error, no more pools are open than before.
pub new_pool-Leaves : (pg : Postgres) (d : Db) (n : ℕ) → Leaves pg d n (new_pool pg d n)
unfolding new_pool
new_pool-Leaves pg d n = parsed-Leaves pg d n (pg.parse_config (connection_string d)) refl
