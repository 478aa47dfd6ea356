-- ===== src/Types/Incident.antt =====
-- src/types/incident.rs: incidents, quarantined tokens and counters of incidents. The identifiers of
-- `Uuid::new_v4` and the clock are arguments.
pub mod Lifecycle
pub mod Counters
use admissibility_kernel.Base.{
  ℕ, ◌+◌, ◌%◌, ◌^◌, List, [], ◌∷◌, ◌++◌, Bool, true, false, Option, none, some, Str, codes, map,
  join, ◌==◌, ◌&&◌, if◌then◌else◌,
}
use admissibility_kernel.Base.Int.{ℤ}
use admissibility_kernel.Base.Order.{nat_ord, list_ord}
use admissibility_kernel.Base.Tree.{get, insert}
use admissibility_kernel.Types.Turn.{TurnId}

pub data Severity : Type 0 where
  low medium high critical : Severity

unfoldable pub response_time_secs : Severity → ℕ
response_time_secs low = 86400
response_time_secs medium = 14400
response_time_secs high = 3600
response_time_secs critical = 0

unfoldable pub requires_page : Severity → Bool
requires_page critical = true
requires_page _ = false

-- `Display`
unfoldable pub show_severity : Severity → Str
show_severity low = codes "LOW"
show_severity medium = codes "MEDIUM"
show_severity high = codes "HIGH"
show_severity critical = codes "CRITICAL"

pub data IncidentType : Type 0 where
  slice_boundary_violation : (slice_fingerprint : Str) (unauthorized_count : ℕ) → IncidentType
  unverified_evidence_usage : (pipeline_stage : Str) → IncidentType
  content_hash_mismatch : (turn_id : TurnId) (expected_hash computed_hash : Str) → IncidentType
  token_verification_failure : (slice_fingerprint reason : Str) → IncidentType
  sql_boundary_bypass : (query_fingerprint source : Str) → IncidentType
  policy_mutation : (policy_id original_hash new_hash : Str) → IncidentType
  other : (description : Str) → IncidentType

-- `IncidentType::severity`
unfoldable pub severity_of : IncidentType → Severity
severity_of (slice_boundary_violation _ _) = critical
severity_of (unverified_evidence_usage _) = critical
severity_of (content_hash_mismatch _ _ _) = medium
severity_of (token_verification_failure _ _) = critical
severity_of (sql_boundary_bypass _ _) = critical
severity_of (policy_mutation _ _ _) = high
severity_of (other _) = medium

unfoldable pub invariant : IncidentType → Str
invariant (slice_boundary_violation _ _) = codes "INV-GK-001"
invariant (unverified_evidence_usage _) = codes "INV-GK-003"
invariant (content_hash_mismatch _ _ _) = codes "INV-GK-004"
invariant (token_verification_failure _ _) = codes "INV-GK-005"
invariant (sql_boundary_bypass _ _) = codes "INV-GK-008"
invariant (policy_mutation _ _ _) = codes "INV-GK-007"
invariant (other _) = codes "UNKNOWN"

unfoldable pub metric_name : IncidentType → Str
metric_name (slice_boundary_violation _ _) = codes "graph_kernel_slice_boundary_violations_total"
metric_name (unverified_evidence_usage _) = codes "graph_kernel_unverified_evidence_usage_total"
metric_name (content_hash_mismatch _ _ _) = codes "graph_kernel_content_hash_mismatches_total"
metric_name (token_verification_failure _ _) =
    codes "graph_kernel_token_verification_failures_total"
metric_name (sql_boundary_bypass _ _) = codes "graph_kernel_sql_boundary_bypass_total"
metric_name (policy_mutation _ _ _) = codes "graph_kernel_policy_mutations_total"
metric_name (other _) = codes "graph_kernel_other_incidents_total"

pub record Incident : Type 0 where
  pub id : Str
  pub timestamp : ℤ
  pub incident_type : IncidentType
  pub severity : Severity
  pub source : Str
  pub context : List (Str × Str)
  pub acknowledged : Bool
  pub acknowledged_at : Option ℤ
  pub acknowledged_by : Option Str

-- `Incident::new`
unfoldable pub new_incident : Str → ℤ → IncidentType → Str → Incident
unfolding severity_of
new_incident id now incident_type source = record {
  id = id;
  timestamp = now;
  incident_type = incident_type;
  severity = severity_of incident_type;
  source = source;
  context = [];
  acknowledged = false;
  acknowledged_at = none;
  acknowledged_by = none;
}

unfoldable pub with_context : Incident → Str → Str → Incident
with_context i key value = record i { context = insert key value i.context }

unfoldable pub acknowledge : ℤ → Incident → Str → Incident
acknowledge now i by_whom = record i {
  acknowledged = true;
  acknowledged_at = some now;
  acknowledged_by = some by_whom;
}

pub record QuarantinedToken : Type 0 where
  pub id : Str
  pub token_hash : Str
  pub slice_fingerprint : Str
  pub quarantined_at : ℤ
  pub reason : Str
  pub incident_id : Option Str
  pub reviewed : Bool
  pub review_decision : Option Str
  pub reviewed_at : Option ℤ

-- `QuarantinedToken::new`
unfoldable pub quarantine : Str → ℤ → Str → Str → Str → QuarantinedToken
quarantine id now token_hash slice_fingerprint reason = record {
  id = id;
  token_hash = token_hash;
  slice_fingerprint = slice_fingerprint;
  quarantined_at = now;
  reason = reason;
  incident_id = none;
  reviewed = false;
  review_decision = none;
  reviewed_at = none;
}

unfoldable pub with_incident : QuarantinedToken → Str → QuarantinedToken
with_incident t incident_id = record t { incident_id = some incident_id }

unfoldable pub review : ℤ → QuarantinedToken → Str → QuarantinedToken
review now t decision = record t {
  reviewed = true;
  review_decision = some decision;
  reviewed_at = some now;
}

-- `TestMetrics`
pub record TestMetrics : Type 0 where
  pub counters : List (Str × ℕ)

abbrev pub no_metrics : TestMetrics
no_metrics = record { counters = [] }

-- The label of a severity in `record_incident`.
unfoldable pub severity_label : Severity → Str
severity_label low = codes "low"
severity_label medium = codes "medium"
severity_label high = codes "high"
severity_label critical = codes "critical"

-- `+= 1` on a `u64` that is there, or on a new one.
abbrev pub next_count : Option ℕ → ℕ
next_count none = 1
next_count (some n) = (n + 1) % 2 ^ 64

-- `{:?}` of a text is an argument; that of the labels is written out.
module _ (debug_str : Str → Str) where
  unfoldable pub debug_label : Str × Str → Str
  debug_label (name, value) =
      codes "(" ++ (debug_str name ++ (codes ", " ++ (debug_str value ++ codes ")")))

  unfoldable pub counter_key : Str → List (Str × Str) → Str
  unfolding debug_label join
  counter_key metric_name labels =
      metric_name ++ (codes ":[" ++ (join (codes ", ") (map debug_label labels) ++ codes "]"))

  -- `TestMetrics::increment`
  unfoldable pub increment : Str → List (Str × Str) → TestMetrics → TestMetrics
  unfolding counter_key
  increment metric_name labels m =
      let key = counter_key metric_name labels in
      record { counters = insert key (next_count (get key m.counters)) m.counters }

  -- `record_incident`
  unfoldable pub record_incident : Incident → TestMetrics → TestMetrics
  unfolding increment severity_label metric_name invariant
  record_incident i m =
      increment (metric_name i.incident_type)
        ((codes "severity", severity_label i.severity)
          ∷ (codes "invariant", invariant i.incident_type)
          ∷ [])
        m

-- `str::starts_with`
abbrev pub starts_with : Str → Str → Bool
starts_with s [] = true
starts_with [] (c ∷ prefix) = false
starts_with (d ∷ s) (c ∷ prefix) = c == d && starts_with s prefix

-- The sum of the counters with the prefix.
unfoldable pub sum_counters : Str → List (Str × ℕ) → ℕ
sum_counters prefix [] = 0
sum_counters prefix ((key, n) ∷ counters) =
    (if starts_with key prefix then n else 0) + sum_counters prefix counters

-- `TestMetrics::get_count`
unfoldable pub get_count : TestMetrics → Str → ℕ
unfolding sum_counters
get_count m metric_name = sum_counters metric_name m.counters % 2 ^ 64
