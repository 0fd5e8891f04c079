-- ===== src/Config.antt =====
-- internal/config/config.go: the settings and the connection string. How the environment is parsed
-- into them is github.com/caarlos0/env's; the defaults are those of the tags.
use Prim.Native.String.{String, ◌++◌ as ◌<>◌}
use text.Mathlib.Text.{◌==◌}
use file_cipher_core.Prelude.{ℕ, ◌*◌, if◌then◌else◌}
use file_cipher_core.Retry.{ℤ, pos}

pub record Retry : Type 0 where
  pub attempts : ℤ
  pub backoff : ℕ

pub record Cipher : Type 0 where
  pub chunk_size : ℕ
  pub workers : ℕ

pub record Redis : Type 0 where
  pub addr : String
  pub password : String
  pub db : ℕ
  pub cursor_ttl : ℕ
  pub queue : String
  pub cursor_name : String
  pub read_block : ℕ

pub record Flusher : Type 0 where
  pub batch_size : ℕ
  pub flush_time : ℕ
  pub shutdown_flush_timeout : ℕ

pub record Rotation : Type 0 where
  pub page_size : ℕ
  pub workers : ℕ

pub record Decipher : Type 0 where
  pub page_size : ℕ

pub record Pending : Type 0 where
  pub amount : ℕ
  pub claim_interval : ℕ
  pub claim_min_idle : ℕ
  pub read_backoff : ℕ
  pub read_backoff_max : ℕ

pub record Db : Type 0 where
  pub user : String
  pub pass : String
  pub name : String
  pub host : String
  pub port : String
  pub ssl_mode : String
  pub max_conns : ℤ
  pub min_conns : ℤ
  pub dsn : String

-- The settings of the services; those of the logger and the server are only passed on.
pub record Config : Type 0 where
  pub key_db : Db
  pub data_db : Db
  pub redis : Redis
  pub flusher : Flusher
  pub cipher : Cipher
  pub rotation : Rotation
  pub decipher : Decipher
  pub pending : Pending
  pub retry : Retry

abbrev pub millisecond : ℕ
millisecond = 1000000

abbrev pub second : ℕ
second = 1000 * millisecond

-- DB.ConnectionString
unfoldable pub connection_string : Db → String
connection_string d =
    if d.dsn == ""
    then "postgres://"
      <> (d.user
          <> (":"
              <> (d.pass
                  <> ("@"
                      <> (d.host
                          <> (":"
                              <> (d.port <> ("/" <> (d.name <> ("?sslmode=" <> d.ssl_mode))))))))))
    else d.dsn

-- What the tags set where the environment has nothing; a field without a default is its type's zero.
abbrev pub default_db : Db
default_db = record {
  user = "";
  pass = "";
  name = "";
  host = "";
  port = "";
  ssl_mode = "disable";
  max_conns = pos 0;
  min_conns = pos 0;
  dsn = "";
}

unfoldable pub default_config : Config
default_config = record {
  key_db = default_db;
  data_db = default_db;
  redis = record {
    addr = "localhost:6379";
    password = "";
    db = 0;
    cursor_ttl = 24 * (3600 * second);
    queue = "cipher:pending";
    cursor_name = "cool_cursor";
    read_block = 5 * second;
  };
  flusher = record {
    batch_size = 1000;
    flush_time = 200 * millisecond;
    shutdown_flush_timeout = 5 * second;
  };
  cipher = record { chunk_size = 51200; workers = 8 };
  rotation = record { page_size = 1000; workers = 8 };
  decipher = record { page_size = 1000 };
  pending = record {
    amount = 1000;
    claim_interval = 30 * second;
    claim_min_idle = 60 * second;
    read_backoff = 100 * millisecond;
    read_backoff_max = 5 * second;
  };
  retry = record { attempts = pos 3; backoff = 100 * millisecond };
}
