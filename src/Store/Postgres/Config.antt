-- ===== src/Store/Postgres/Config.antt =====
-- `PostgresConfig` of src/store/postgres.rs. The environment is an argument: the value of each
-- variable that is set to a text.
pub mod Printed
use admissibility_kernel.Base.{ℕ, Option, none, some, Str, codes, unwrap_or, and_then}
use admissibility_kernel.Base.Parse.{parse_unsigned}

-- `std::env::var(name).ok()`
abbrev pub Environment : Type 0
Environment = Str → Option Str

pub record PostgresConfig : Type 0 where
  pub database_url : Str
  pub max_connections : ℕ
  pub min_connections : ℕ
  pub connect_timeout_secs : ℕ
  pub idle_timeout_secs : ℕ
  pub max_lifetime_secs : ℕ

-- A number of some bits, or the default.
unfoldable pub number_of : Environment → Str → ℕ → ℕ → ℕ
unfolding parse_unsigned
number_of env name bits preset = unwrap_or (and_then (env name) (parse_unsigned bits)) preset

-- `PostgresConfig::from_env`
unfoldable pub from_env : Environment → PostgresConfig
unfolding number_of
from_env env = record {
  database_url = unwrap_or (env (codes "DATABASE_URL")) (codes "postgresql://localhost/orbit");
  max_connections = number_of env (codes "DB_MAX_CONNECTIONS") 32 10;
  min_connections = number_of env (codes "DB_MIN_CONNECTIONS") 32 2;
  connect_timeout_secs = number_of env (codes "DB_CONNECT_TIMEOUT_SECS") 64 10;
  idle_timeout_secs = number_of env (codes "DB_IDLE_TIMEOUT_SECS") 64 300;
  max_lifetime_secs = number_of env (codes "DB_MAX_LIFETIME_SECS") 64 1800;
}
