-- ===== src/Tests/Settings.antt =====
-- The default settings, and pools.
use file_cipher_core.Prelude.{◌<◌, ◌≡◌, refl, arith}
use file_cipher_core.Env.{ok}
use file_cipher_core.Retry.{pos}
use file_cipher_core.Config.{Db, default_db, default_config, connection_string}
use file_cipher_core.Server.{services, Postgres, new_pool}
use file_cipher_core.Server.Pools.{Leaves, new_pool-Leaves}

-- The defaults meet what the theorems on the services ask of their configurations.
positive :
    (0 < (services default_config).cipher.workers)
    × (0 < (services default_config).cipher.chunk_size)
    × (0 < (services default_config).rotator.workers)
    × (0 < (services default_config).rotator.page_size)
    × (0 < (services default_config).decipher.page_size)
    × ((services default_config).decipher.retry.attempts ≡ pos 3)
unfolding services default_config
positive = (omega arith, omega arith, omega arith, omega arith, omega arith, refl)

abbrev key_db : Db
key_db = record default_db {
  user = "u";
  pass = "p";
  name = "keys";
  host = "db";
  port = "5432";
  max_conns = pos 20;
}

key_db_string : connection_string key_db ≡ "postgres://u:p@db:5432/keys?sslmode=disable"
unfolding connection_string
key_db_string = refl

abbrev postgres : Postgres
postgres = record {
  parse_config = λ s. ok (record { max_conns = pos 4; min_conns = pos 0 });
  make = λ c. ok tt;
  answer = ok tt;
}

new_pool-Leaves_example : Leaves postgres key_db 1 (new_pool postgres key_db 1)
new_pool-Leaves_example = new_pool-Leaves postgres key_db 1
