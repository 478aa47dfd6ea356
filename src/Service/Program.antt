-- ===== src/Service/Program.antt =====
-- src/bin/graph_kernel_service.rs: what the program reads from its environment, and the state that
-- it starts with.
pub mod Start
use admissibility_kernel.Base.{
  ℕ, List, [], ◌∷◌, ◌++◌, Option, none, some, Str, Bytes, codes, as_bytes, show_usize, unwrap_or,
  and_then, map_option, ◌==◌, if◌then◌else◌,
}
use admissibility_kernel.Base.Parse.{parse_unsigned}
use admissibility_kernel.Crates.{Floats, Crypto}
use admissibility_kernel.Store.{GraphStore}
use admissibility_kernel.Store.Postgres.Config.{Environment}
use admissibility_kernel.Service.State.{ServiceState, with_registry, with_defaults}

abbrev pub development_secret : Bytes
development_secret = codes "development_only_secret_not_for_production"

-- `hmac_secret` of `main`
unfoldable pub choose_secret : Option Str → Bytes
choose_secret (some (c ∷ s)) = as_bytes (c ∷ s)
choose_secret _ = development_secret

unfoldable pub port : Environment → ℕ
unfolding parse_unsigned
port env = unwrap_or (and_then (env (codes "PORT")) (parse_unsigned 16)) 8001

unfoldable pub host : Environment → Str
host env = unwrap_or (env (codes "HOST")) (codes "0.0.0.0")

-- The text of the address that is listened to.
unfoldable pub address : Environment → Str
unfolding port host
address env = host env ++ (codes ":" ++ show_usize (port env))

-- `s.split('/').next()`
unfoldable pub before_slash : Str → Str
before_slash [] = []
before_slash (c ∷ s) = let rest = before_slash s in if c == b'/' then [] else c ∷ rest

-- The header `X-Cloud-Trace-Context`, if it is a text, or a random identifier.
unfoldable pub trace_id : Option Str → Str → Str
unfolding before_slash
trace_id header random = unwrap_or (map_option before_slash header) random

-- The state that `main` serves.
unfoldable pub start_state :
    {F E : Type 0} → Floats F → Crypto F → GraphStore F E → Environment → ServiceState F E
unfolding with_registry with_defaults choose_secret
start_state fl cr store env =
    with_registry store (with_defaults fl cr) (choose_secret (env (codes "KERNEL_HMAC_SECRET")))
