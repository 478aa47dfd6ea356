-- ===== src/Store/Postgres/Config/Printed.antt =====
-- The configuration of the store over PostgreSQL is read from what it prints.
use admissibility_kernel.Base.{
  ℕ, ◌<◌, ◌^◌, ◌≡◌, refl, ap, ◌∙◌, [], ◌∷◌, some, Str, codes, show_usize, unwrap_or, and_then,
  arith,
}
use admissibility_kernel.Base.Order.{nat_ord, list_ord}
use admissibility_kernel.Base.Tree.{get}
use admissibility_kernel.Base.Parse.{parse_unsigned, parse_unsigned-show_usize}
use admissibility_kernel.Store.Postgres.Config.{Environment, PostgresConfig, number_of, from_env}

-- The variables that say the configuration, with numbers in decimal.
abbrev pub variables : PostgresConfig → Environment
variables c name = get name (
    (codes "DATABASE_URL", c.database_url)
    ∷ (codes "DB_CONNECT_TIMEOUT_SECS", show_usize c.connect_timeout_secs)
    ∷ (codes "DB_IDLE_TIMEOUT_SECS", show_usize c.idle_timeout_secs)
    ∷ (codes "DB_MAX_CONNECTIONS", show_usize c.max_connections)
    ∷ (codes "DB_MAX_LIFETIME_SECS", show_usize c.max_lifetime_secs)
    ∷ (codes "DB_MIN_CONNECTIONS", show_usize c.min_connections)
    ∷ [])

-- The numbers have their widths.
pub record Fits (c : PostgresConfig) : Type 0 where
  pub max_u32 : c.max_connections < 2 ^ 32
  pub min_u32 : c.min_connections < 2 ^ 32
  pub connect_u64 : c.connect_timeout_secs < 2 ^ 64
  pub idle_u64 : c.idle_timeout_secs < 2 ^ 64
  pub lifetime_u64 : c.max_lifetime_secs < 2 ^ 64

number_of-show_usize :
    (env : Environment) (name : Str) (bits preset n : ℕ)
    → env name ≡ some (show_usize n)
    → n < 10 ^ 20
    → n < 2 ^ bits
    → number_of env name bits preset ≡ n
unfolding number_of
number_of-show_usize env name bits preset n there short small =
    ap (λ o. unwrap_or (and_then o (parse_unsigned bits)) preset) there
    ∙ ap (λ o. unwrap_or o preset) (parse_unsigned-show_usize bits n short small)

-- A configuration whose numbers fit is read back from the variables that say it.
pub from_env-variables : (c : PostgresConfig) → Fits c → from_env (variables c) ≡ c
unfolding from_env get
from_env-variables c fits =
    let env = variables c in
    let most =
      number_of-show_usize env (codes "DB_MAX_CONNECTIONS") 32 10 c.max_connections refl
        (omega (arith, fits.max_u32)) fits.max_u32 in
    let least =
      number_of-show_usize env (codes "DB_MIN_CONNECTIONS") 32 2 c.min_connections refl
        (omega (arith, fits.min_u32)) fits.min_u32 in
    let connect =
      number_of-show_usize env (codes "DB_CONNECT_TIMEOUT_SECS") 64 10 c.connect_timeout_secs refl
        (omega (arith, fits.connect_u64)) fits.connect_u64 in
    let idle =
      number_of-show_usize env (codes "DB_IDLE_TIMEOUT_SECS") 64 300 c.idle_timeout_secs refl
        (omega (arith, fits.idle_u64)) fits.idle_u64 in
    let life =
      number_of-show_usize env (codes "DB_MAX_LIFETIME_SECS") 64 1800 c.max_lifetime_secs refl
        (omega (arith, fits.lifetime_u64)) fits.lifetime_u64 in
    λ i. record {
      database_url = c.database_url;
      max_connections = most i;
      min_connections = least i;
      connect_timeout_secs = connect i;
      idle_timeout_secs = idle i;
      max_lifetime_secs = life i;
    }
