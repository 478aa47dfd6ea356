-- ===== src/Samples/Records.antt =====
-- The theorems on incidents, provenances and the store over PostgreSQL, at small inputs.
use admissibility_kernel.Base.{
  one_if, ℕ, ◌+◌, ◌%◌, ◌^◌, ◌==◌, ◌≡◌, refl, true, false, [], none, some, Str, codes, ok, arith,
}
use admissibility_kernel.Base.Int.{ℤ, pos}
use admissibility_kernel.Types.Incident.{
  IncidentType, policy_mutation, metric_name, Incident, new_incident, acknowledge, TestMetrics,
  no_metrics, record_incident, get_count, with_context,
}
use admissibility_kernel.Types.Incident.Counters.{kind, get_count-record_incident}
use admissibility_kernel.Types.Provenance.{
  ReplayProvenance, current_normalization, is_replay_compatible,
}
use admissibility_kernel.Store.Postgres.{TurnRow, Database, get_turn_with_verified_content}
use admissibility_kernel.Store.Postgres.Answers.{IsKeyed}
use admissibility_kernel.Store.Postgres.Verified.{IsAnswer, get_turn_with_verified_content_lem}
use admissibility_kernel.Store.Postgres.Config.{PostgresConfig, from_env}
use admissibility_kernel.Store.Postgres.Config.Printed.{variables, from_env-variables}
use admissibility_kernel.Samples.{floats, crypto}
use admissibility_kernel.Samples.Graph.{now}

abbrev mutated : IncidentType
mutated = policy_mutation (codes "p") (codes "h") (codes "g")

abbrev handled : Incident
handled =
    acknowledge now
      (with_context (new_incident (codes "i") now mutated (codes "gk")) (codes "k") (codes "v"))
      (codes "ops")

-- One incident is recorded twice.
abbrev recorded : TestMetrics
recorded = record_incident (λ s. s) handled (record_incident (λ s. s) handled no_metrics)

get_count-record_incident_example :
    get_count (record_incident (λ s. s) handled recorded) (metric_name mutated)
    ≡ (get_count recorded (metric_name mutated)
        + one_if (kind handled.incident_type == kind mutated))
      % 2 ^ 64
get_count-record_incident_example = get_count-record_incident (λ s. s) handled mutated recorded

abbrev provenance_at : ℤ → ReplayProvenance ℕ
provenance_at time = record {
  timestamp = time;
  embedding_model = record {
    model_id = codes "m";
    version = codes "1";
    dimensions = 3;
    quantization = none;
    deterministic = true;
  };
  normalization = current_normalization;
  retrieval_params = record {
    k = 5;
    similarity_threshold = 700;
    reranking_enabled = false;
    reranker_model = none;
    max_context_tokens = some 100;
    slice_policy_version = codes "p";
    policy_params_hash = codes "h";
  };
  graph_snapshot = codes "g";
  slice_fingerprint = codes "f";
  query_vector_hash = none;
  metadata = [];
}

compatible : is_replay_compatible floats (provenance_at (pos 1)) (provenance_at (pos 2)) ≡ true
unfolding is_replay_compatible
compatible = refl

-- A database that finds a row for every identifier, with a hash that is not that of the text.
abbrev pub found_row : ℕ → TurnRow Str ℕ
found_row id = record {
  id = ok id;
  conversation_id = ok none;
  role = ok (some (codes "user"));
  phase = ok none;
  salience_score = ok (some 500);
  trajectory_depth = ok none;
  trajectory_sibling_order = ok none;
  trajectory_homogeneity = ok none;
  trajectory_temporal = ok none;
  trajectory_complexity = ok none;
  created_at = ok now;
  content_hash = ok (some (codes "0000"));
  content_text = ok (codes "text");
}

abbrev pub db : Database ℕ Str ℕ
db = record {
  ping = ok tt;
  content_by_id = λ id. ok (some (found_row id));
  turn_by_id = λ id. ok (some (found_row id));
  turns_by_ids = λ ids. ok [];
  parents_of = λ id. ok [];
  children_of = λ id. ok [];
  siblings_of = λ id limit. ok [];
  edges_among = λ ids. ok [];
  half = 500;
  narrow = λ d. d;
  of_i32 = λ i. 1000;
  show_error = λ e. e;
}

pub db-IsKeyed : IsKeyed db
db-IsKeyed id row h = ground arith

get_turn_with_verified_content_lem_example :
    IsAnswer floats crypto db 3 (get_turn_with_verified_content floats crypto db 3)
get_turn_with_verified_content_lem_example = get_turn_with_verified_content_lem floats crypto db 3

abbrev config : PostgresConfig
config = record {
  database_url = codes "postgresql://db/graph";
  max_connections = 25;
  min_connections = 0;
  connect_timeout_secs = 5;
  idle_timeout_secs = 120;
  max_lifetime_secs = 86400;
}

from_env-variables_example : from_env (variables config) ≡ config
from_env-variables_example = from_env-variables config (record {
  max_u32 = omega arith;
  min_u32 = omega arith;
  connect_u64 = omega arith;
  idle_u64 = omega arith;
  lifetime_u64 = omega arith;
})
