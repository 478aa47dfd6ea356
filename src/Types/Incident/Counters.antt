-- ===== src/Types/Incident/Counters.antt =====
-- What the counters of src/types/incident.rs count.
use admissibility_kernel.Base.{
  one_if, ℕ, ◌+◌, ◌%◌, ◌^◌, ◌≡◌, ap, refl, List, [], ◌∷◌, ◌++◌, true, Str, codes, ◌==◌, arith,
}
use admissibility_kernel.Base.Order.{Ord, nat_ord, list_ord}
use admissibility_kernel.Base.Tree.{get, insert}
use admissibility_kernel.Types.Incident.{
  IncidentType, slice_boundary_violation, unverified_evidence_usage, content_hash_mismatch,
  token_verification_failure, sql_boundary_bypass, policy_mutation, other, metric_name, invariant,
  severity_label, Incident, TestMetrics, next_count, counter_key, increment, record_incident,
  starts_with, sum_counters, get_count,
}

-- One more of what starts with the prefix.
sum_counters-insert :
    (prefix key : Str) (m : List (Str × ℕ))
    → sum_counters prefix (insert key (next_count (get key m)) m) % 2 ^ 64
      ≡ (sum_counters prefix m + one_if (starts_with key prefix)) % 2 ^ 64
unfolding sum_counters insert get
sum_counters-insert prefix key [] = ground arith
sum_counters-insert prefix key ((k, n) ∷ m) =
    let o : Ord Str = list_ord in
    ground (arith, sum_counters-insert prefix key m, o.eq_of_cmp key k)

-- The place of a kind of incident.
abbrev pub kind : IncidentType → ℕ
kind (slice_boundary_violation _ _) = 0
kind (unverified_evidence_usage _) = 1
kind (content_hash_mismatch _ _ _) = 2
kind (token_verification_failure _ _) = 3
kind (sql_boundary_bypass _ _) = 4
kind (policy_mutation _ _ _) = 5
kind (other _) = 6

starts_with-append : (s t : Str) → starts_with (s ++ t) s ≡ true
starts_with-append [] t = refl
starts_with-append (c ∷ s) t = ground (arith, starts_with-append s t)

-- No metric's name starts another's.
starts_with-metric_name :
    (i j : IncidentType) (rest : Str)
    → starts_with (metric_name i ++ rest) (metric_name j) ≡ (kind i == kind j)
unfolding metric_name
starts_with-metric_name (slice_boundary_violation _ _) (slice_boundary_violation _ _) rest = refl
starts_with-metric_name (slice_boundary_violation _ _) _ rest = refl
starts_with-metric_name (unverified_evidence_usage _) (slice_boundary_violation _ _) rest = refl
starts_with-metric_name (unverified_evidence_usage _) _ rest = refl
starts_with-metric_name (content_hash_mismatch _ _ _) (slice_boundary_violation _ _) rest = refl
starts_with-metric_name (content_hash_mismatch _ _ _) _ rest = refl
starts_with-metric_name (token_verification_failure _ _) (slice_boundary_violation _ _) rest = refl
starts_with-metric_name (token_verification_failure _ _) _ rest = refl
starts_with-metric_name (sql_boundary_bypass _ _) (slice_boundary_violation _ _) rest = refl
starts_with-metric_name (sql_boundary_bypass _ _) _ rest = refl
starts_with-metric_name (policy_mutation _ _ _) (slice_boundary_violation _ _) rest = refl
starts_with-metric_name (policy_mutation _ _ _) _ rest = refl
starts_with-metric_name (other _) (slice_boundary_violation _ _) rest = refl
starts_with-metric_name (other _) _ rest = refl

starts_with-counter_key :
    (debug_str : Str → Str) (i j : IncidentType) (labels : List (Str × Str))
    → starts_with (counter_key debug_str (metric_name i) labels) (metric_name j)
      ≡ (kind i == kind j)
unfolding counter_key
starts_with-counter_key debug_str i j labels = starts_with-metric_name i j _

-- Recording an incident adds one to the count of its metric, and nothing to the count of another
-- metric, modulo 2^64.
pub get_count-record_incident :
    (debug_str : Str → Str) (i : Incident) (t : IncidentType) (m : TestMetrics)
    → get_count (record_incident debug_str i m) (metric_name t)
      ≡ (get_count m (metric_name t) + one_if (kind i.incident_type == kind t)) % 2 ^ 64
unfolding get_count record_incident increment
get_count-record_incident debug_str i t m =
    let labels : List (Str × Str) =
      (codes "severity", severity_label i.severity)
      ∷ (codes "invariant", invariant i.incident_type)
      ∷ [] in
    let key = counter_key debug_str (metric_name i.incident_type) labels in
    omega (
      arith,
      sum_counters-insert (metric_name t) key m.counters,
      ap one_if (starts_with-counter_key debug_str i.incident_type t labels),
    )
