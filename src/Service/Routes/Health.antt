-- ===== src/Service/Routes/Health.antt =====
-- The probes of src/service/routes.rs: they report whether the database answers (`is_healthy`).
use admissibility_kernel.Base.{
  ℕ, Bool, true, false, Option, none, some, Str, codes, Result, ok, err, if◌then◌else◌,
}
use admissibility_kernel.Types.Slice.{schema_version_literal}
use admissibility_kernel.Service.State.{ServiceState, len, fingerprint}

pub record DatabaseHealth : Type 0 where
  pub connected : Bool
  pub pool_size : ℕ
  pub pool_idle : ℕ
  pub pool_max : ℕ

pub record HealthResponse : Type 0 where
  pub status : Str
  pub version : Str
  pub schema_version : Str
  pub policy_count : ℕ
  pub registry_fingerprint : Str
  pub database : Option DatabaseHealth

pub record ReadinessResponse : Type 0 where
  pub ready : Bool
  pub database : Bool
  pub details : Option Str

-- A status code and its body.
abbrev pub Refusal : Type 0
Refusal = ℕ × ReadinessResponse

unfoldable pub liveness_handler : Str
liveness_handler = codes "alive"

unfoldable pub readiness_handler : Bool → Result Refusal ReadinessResponse
readiness_handler db_healthy =
    if db_healthy
    then ok (record { ready = true; database = true; details = none })
    else err (
      503,
      record {
        ready = false;
        database = false;
        details = some (codes "Database connection failed");
      },
    )

unfoldable pub startup_handler : Bool → Result Refusal ReadinessResponse
startup_handler db_healthy =
    if db_healthy
    then ok (record {
      ready = true;
      database = true;
      details = some (codes "Service started successfully");
    })
    else err (
      503,
      record {
        ready = false;
        database = false;
        details = some (codes "Database not yet available");
      },
    )

-- With the package's version and the state of the pool, by its size, idle and most connections.
unfoldable pub health_handler :
    {F E : Type 0} → ServiceState F E → Str → Bool → ℕ → ℕ → ℕ → HealthResponse
health_handler st version db_healthy size idle max = record {
  status = if db_healthy then codes "healthy" else codes "degraded";
  version = version;
  schema_version = schema_version_literal;
  policy_count = len st.policy_registry;
  registry_fingerprint = fingerprint st.policy_registry;
  database =
      some (record { connected = db_healthy; pool_size = size; pool_idle = idle; pool_max = max });
}
