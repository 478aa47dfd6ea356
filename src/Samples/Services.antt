-- ===== src/Samples/Services.antt =====
-- The theorems on the registry, the handlers, the guard and the sufficiency policies, at small inputs.
use admissibility_kernel.Base.{
  ℕ, ◌+◌, ◌≤◌, ◌≡◌, ◌≢◌, refl, ap, ◌⊎◌, inr, [], ◌∷◌, true, false, not, none, some, Str, codes, ok,
  err, All, length, filter, all, arith,
}
use admissibility_kernel.Base.Tree.{get, insert}
use admissibility_kernel.Base.{hex_digits}
use admissibility_kernel.Canonical.{canonical_hash_hex, canonical_hash, to_canonical_bytes}
use admissibility_kernel.Types.Role.{user, assistant}
use admissibility_kernel.Types.Boundary.{
  SliceBoundaryGuard, contains_id, check_access, is_authorized, BoundaryViolation, violation,
}
use admissibility_kernel.Types.Boundary.Access.{check_access_lem}
use admissibility_kernel.Types.Admissible.{AdmissibleEvidenceBundle}
use admissibility_kernel.Types.Diversity.{
  DiversityMetrics, from_bundle, compute_salience_stats, fold_floats, tally, bump, contains_key,
}
use admissibility_kernel.Types.Diversity.Tally.{has_role}
use admissibility_kernel.Types.Sufficiency.{
  SufficiencyPolicy, EvidenceBundle, is_satisfied, check, from_admissible,
}
use admissibility_kernel.Types.Sufficiency.Verdict.{
  counts_satisfied, check_nan, from_admissible_lem,
}
use admissibility_kernel.Policy.V1
use admissibility_kernel.Policy.V1.{SlicePolicyV1, policy_id}
use admissibility_kernel.Store.Memory.{InMemoryError}
use admissibility_kernel.Service.State.{
  PolicyRef, PolicyRegistry, from_policy, new, register, resolve, ServiceState,
}
use admissibility_kernel.Service.State.Registry.{
  Built, empty, registered, resolve-register_old, register_again,
}
use admissibility_kernel.Service.Messages.{
  SliceRequest, SliceResponse, Failure, BatchSliceRequest, BatchSliceResponse,
}
use admissibility_kernel.Service.Routes.{
  to_dto, verify_token_handler, choose_policy, respond, slice_handler, batch_slice_handler,
}
use admissibility_kernel.Service.Routes.Promises.{ask, slice_handler_valid}
use admissibility_kernel.Service.Routes.Answers.{Granted, Reason, slice_handler_returns}
use admissibility_kernel.Service.Routes.Batch.{Outcomes, IsAccepted, batch_slice_handler_lem}
use admissibility_kernel.Samples.{floats, float_laws, crypto, crypto_laws, nan}
use admissibility_kernel.Samples.Graph.{
  turn_one, turn_two, turn_four, no_bundle, policy, store, secret, now, bundle, run-ok,
}

abbrev default_policy_v1 : SlicePolicyV1 ℕ
default_policy_v1 = V1.default floats

-- One policy registered.
abbrev registry : PolicyRegistry ℕ
registry = (register floats crypto (new floats crypto) policy).1

registry-Built : Built floats crypto registry
registry-Built = registered policy empty

abbrev policy_ref : PolicyRef
policy_ref = from_policy floats crypto policy

refs_differ : from_policy floats crypto default_policy_v1 ≢ from_policy floats crypto policy
unfolding from_policy policy_id V1.default
refs_differ h = let e = ap (λ r. length r.policy_id) h in omega (arith, e)

resolves : resolve registry policy_ref ≡ some policy
unfolding resolve register new get insert policy_id V1.params_hash canonical_hash_hex hex_digits
    canonical_hash to_canonical_bytes
resolves = refl

resolve-register_old_example :
    resolve (register floats crypto registry default_policy_v1).1 policy_ref ≡ some policy
resolve-register_old_example =
    resolve-register_old floats crypto default_policy_v1 policy policy_ref registry-Built resolves

register_again_example :
    let step = register floats crypto registry default_policy_v1 in
    register floats crypto step.1 default_policy_v1 ≡ step
register_again_example = register_again floats crypto default_policy_v1 registry-Built

abbrev service : ServiceState ℕ InMemoryError
service = record { store = store; policy_registry = registry; hmac_secret = secret }

abbrev uuid_error : Str → Str
uuid_error s = codes "invalid"

abbrev debug_ref : PolicyRef → Str
debug_ref r = r.policy_id

abbrev request : SliceRequest
request = record { anchor_turn_id = crypto.uuid_string 2; policy_ref = some policy_ref }

abbrev response : SliceResponse
response = record { slice = to_dto crypto bundle.slice; policy_ref = policy_ref }

served : slice_handler floats crypto uuid_error debug_ref now service request ≡ some (ok response)
unfolding slice_handler respond choose_policy
served = ground (arith, resolves, run-ok)

slice_handler_valid_example :
    (verify_token_handler crypto service (ask response.slice)).valid ≡ true
slice_handler_valid_example =
    slice_handler_valid floats crypto crypto_laws service now uuid_error debug_ref request response
      served

slice_handler_returns_example :
    ((resp : SliceResponse) × (slice_handler floats crypto uuid_error debug_ref now service request
        ≡ some (ok resp))
      × Granted floats crypto service now uuid_error debug_ref request resp)
    ⊎ ((f : Failure) × (slice_handler floats crypto uuid_error debug_ref now service request
          ≡ some (err f))
        × Reason floats crypto service now uuid_error debug_ref request f)
slice_handler_returns_example =
    slice_handler_returns floats crypto service now uuid_error debug_ref request

-- A turn of the graph, a missing turn, and a text that is no identifier.
abbrev batch : BatchSliceRequest
batch = record {
  anchor_turn_ids = crypto.uuid_string 2 ∷ crypto.uuid_string 9 ∷ [] ∷ [];
  policy_ref = some policy_ref;
}

batch_slice_handler_lem_example :
    (resp : BatchSliceResponse) × (batch_slice_handler floats crypto uuid_error debug_ref now
        service batch
      ≡ some (ok resp))
    × (resp.policy_ref ≡ policy_ref)
    × Outcomes floats crypto service now uuid_error policy batch.anchor_turn_ids resp.slices
        resp.errors
    × (resp.success_count ≡ length resp.slices)
    × (length resp.slices + length resp.errors ≡ 3)
    × All (IsAccepted floats crypto service now uuid_error debug_ref crypto_laws) resp.slices
batch_slice_handler_lem_example =
    batch_slice_handler_lem floats crypto service now uuid_error debug_ref crypto_laws batch policy
      policy_ref (inr (refl, resolves))

abbrev guard : SliceBoundaryGuard
guard = record { turn_ids = 1 ∷ 2 ∷ []; slice_fingerprint = codes "s"; boundary_hash = 5 }

check_access_lem_example :
    (is_authorized (check_access now guard (2 ∷ 9 ∷ []) none)
      ≡ all (contains_id guard) (2 ∷ 9 ∷ []))
    × ((v : BoundaryViolation)
        → check_access now guard (2 ∷ 9 ∷ []) none ≡ violation v
        → (v.unauthorized_ids ≡ filter (λ id. not (contains_id guard id)) (2 ∷ 9 ∷ []))
          × (v.slice_fingerprint ≡ codes "s"))
check_access_lem_example = check_access_lem now guard (2 ∷ 9 ∷ []) none

-- The metrics of two turns.
abbrev metrics : ℕ → DiversityMetrics ℕ
metrics mean = record {
  turn_count = 3;
  unique_roles = 2;
  role_distribution = (user, 2) ∷ (assistant, 1) ∷ [];
  unique_phases = 1;
  phase_distribution = [];
  unique_sessions = 1;
  salience_stats = record {
    min = 0;
    max = 900;
    mean = mean;
    std_dev = 100;
    high_salience_count = 1;
  };
  has_exchange = true;
}

abbrev bounds : SufficiencyPolicy ℕ
bounds = record {
  min_turns = 3;
  min_roles = 2;
  min_phases = 1;
  min_high_salience = 1;
  require_exchange = true;
  min_mean_salience = 300;
}

check_nan_example :
    (is_satisfied floats bounds (metrics nan) ≡ false)
    × ((check floats bounds (metrics nan)).is_sufficient
        ≡ counts_satisfied floats bounds (metrics nan))
check_nan_example = check_nan floats float_laws bounds (metrics nan) refl

abbrev talk : AdmissibleEvidenceBundle ℕ
talk = record no_bundle {
  slice = record no_bundle.slice { turns = turn_one ∷ turn_two ∷ turn_four ∷ [] };
}

abbrev evidence : EvidenceBundle ℕ
evidence = record { bundle = talk; metrics = from_bundle floats talk; policy_id = codes "p" }

accepted : from_admissible floats talk bounds (codes "p") ≡ ok evidence
unfolding from_admissible from_bundle compute_salience_stats fold_floats tally bump contains_key
    check
accepted = refl

from_admissible_lem_example :
    (talk ≡ talk)
    × (3 ≤ 3)
    × (true ≡ true
        → (has_role talk.slice.turns user ≡ true) × (has_role talk.slice.turns assistant ≡ true))
from_admissible_lem_example = from_admissible_lem floats talk bounds (codes "p") evidence accepted
