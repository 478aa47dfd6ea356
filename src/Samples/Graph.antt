-- ===== src/Samples/Graph.antt =====
-- A conversation of four turns, kept in memory, and a slice of it.
use admissibility_kernel.Base.{
  ℕ, ◌≡◌, refl, [], ◌∷◌, true, false, Option, none, some, length, Bytes, codes, Result, ok,
}
use admissibility_kernel.Base.Int.{ℤ, pos}
use admissibility_kernel.Types.Turn.{TurnId, TurnSnapshot}
use admissibility_kernel.Types.Role.{Role, user, assistant}
use admissibility_kernel.Types.Phase.{Phase, planning, synthesis}
use admissibility_kernel.Types.Edge.{Edge, reply}
use admissibility_kernel.Types.Admissible.{AdmissibleEvidenceBundle}
use admissibility_kernel.Policy.V1
use admissibility_kernel.Policy.V1.{SlicePolicyV1}
use admissibility_kernel.Store.Memory
use admissibility_kernel.Store.Memory.{
  InMemoryGraphStore, InMemoryError, add_turn, add_edge, graph_store,
}
use admissibility_kernel.Store.Memory.Mirror.{Built, empty, turn_added, edge_added}
use admissibility_kernel.Store.{GraphStore}
use admissibility_kernel.Slicer
use admissibility_kernel.Slicer.{slice}
use admissibility_kernel.Base.Tree.{get, insert, insert_id, set_of}
use admissibility_kernel.Base.Sort.{sort_by, insert_by}
use admissibility_kernel.Base.{as_bytes, hex_digits}
use admissibility_kernel.Base.Int.{max_or_zero}
use admissibility_kernel.Canonical.{canonical_hash, canonical_hash_hex, to_canonical_bytes}
use admissibility_kernel.Slicer.Frontier.{pop, pick}
use admissibility_kernel.Policy.Scoring.{cmp, priority_score, tie_break}
use admissibility_kernel.Policy.V1.{
  params_hash, policy_id, quantize_float, quantize_weights, to_quantized,
}
use admissibility_kernel.Slicer.{
  expand, expand_loop, expand_siblings, finish, from_store, graph_snapshot_hash, push_turn, round,
  seal, select_turns, take_candidate, to_round, visit, visit_all,
}
use admissibility_kernel.Store.Memory.{
  get_turn, get_parents, get_children, get_siblings, get_edges, add_others, gather, link,
  sibling_list,
}
use admissibility_kernel.Types.Slice.Token.{
  canonical_string, fold_equal, is_valid_format, issue_hmac, mac_bytes, verify_hmac,
}
use admissibility_kernel.Types.Slice.{
  compute_fingerprint, content_hash_bytes, from_content_hashes, from_stats, new_with_secret,
  to_le_bytes,
}
use admissibility_kernel.Types.Admissible.{from_verified, bundle_turn_ids}
use admissibility_kernel.Types.Turn.{has_content_hash}
use admissibility_kernel.Policy.Scoring
use admissibility_kernel.Samples.{floats, crypto}

abbrev pub turn : TurnId → Role → Phase → ℕ → TurnSnapshot ℕ
turn id role phase salience = record {
  id = id;
  session_id = codes "s";
  role = role;
  phase = phase;
  salience = salience;
  trajectory_depth = 0;
  trajectory_sibling_order = 0;
  trajectory_homogeneity = 500;
  trajectory_temporal = 500;
  trajectory_complexity = 1000;
  created_at = pos id;
  content_hash = none;
}

abbrev pub edge : TurnId → TurnId → Edge
edge p c = record { parent = p; child = c; edge_type = reply }

abbrev pub turn_one : TurnSnapshot ℕ
turn_one = turn 1 user planning 500

abbrev pub turn_two : TurnSnapshot ℕ
turn_two = turn 2 assistant synthesis 800

abbrev pub turn_four : TurnSnapshot ℕ
turn_four = turn 4 user synthesis 900

abbrev pub graph : InMemoryGraphStore ℕ
graph =
    add_edge
      (add_edge
        (add_edge
          (add_turn
            (add_turn (add_turn (add_turn Memory.new turn_one) turn_two)
              (turn 3 assistant planning 300))
            turn_four)
          (edge 1 2))
        (edge 1 3))
      (edge 2 4)

pub graph-Built : Built graph
graph-Built = edge_added (edge 2 4) (
    edge_added (edge 1 3) (
      edge_added (edge 1 2) (
        turn_added turn_four (
          turn_added (turn 3 assistant planning 300)
            (turn_added turn_two (turn_added turn_one empty))))))

-- Three turns, one step from the anchor, and their siblings.
abbrev pub policy : SlicePolicyV1 ℕ
policy = record {
  version = codes "p";
  max_nodes = 3;
  max_radius = 1;
  phase_weights = record {
    synthesis = 1000;
    planning = 900;
    consolidation = 600;
    debugging = 500;
    exploration = 300;
  };
  salience_weight = 300;
  distance_decay = 900;
  include_siblings = true;
  max_siblings_per_node = 2;
}

abbrev pub secret : Bytes
secret = codes "key"

abbrev pub store : GraphStore ℕ InMemoryError
store = graph_store floats crypto graph

abbrev pub now : ℤ
now = pos 7

abbrev pub run : Option (Result Slicer.SlicerError (AdmissibleEvidenceBundle ℕ))
run = slice floats crypto store policy secret now 2

abbrev pub no_bundle : AdmissibleEvidenceBundle ℕ
no_bundle = record {
  slice = record {
    anchor_turn_id = 0;
    turns = [];
    edges = [];
    policy_id = [];
    policy_params_hash = [];
    schema_version = [];
    slice_id = [];
    graph_snapshot_hash = [];
    admissibility_token = [];
  };
  verified_at_unix_ms = now;
}

abbrev bundle_of :
    Option (Result Slicer.SlicerError (AdmissibleEvidenceBundle ℕ)) → AdmissibleEvidenceBundle ℕ
bundle_of (some (ok b)) = b
bundle_of _ = no_bundle

-- The slice around turn 2.
abbrev pub bundle : AdmissibleEvidenceBundle ℕ
bundle = bundle_of run

pub run-ok : run ≡ some (ok bundle)
unfolding slice add_turn add_edge Memory.new Scoring.new V1.get get insert insert_id set_of sort_by
    insert_by as_bytes hex_digits max_or_zero canonical_hash canonical_hash_hex to_canonical_bytes
    pop pick cmp priority_score tie_break params_hash policy_id quantize_float quantize_weights
    to_quantized expand expand_loop expand_siblings finish from_store graph_snapshot_hash push_turn
    round seal select_turns take_candidate to_round visit visit_all get_turn get_parents
    get_children get_siblings get_edges add_others gather link sibling_list canonical_string
    fold_equal is_valid_format issue_hmac mac_bytes verify_hmac compute_fingerprint
    content_hash_bytes from_content_hashes from_stats new_with_secret to_le_bytes from_verified
    has_content_hash
run-ok = refl

run-ids : bundle_turn_ids bundle ≡ 2 ∷ 3 ∷ 4 ∷ []
unfolding slice add_turn add_edge Memory.new Scoring.new V1.get get insert insert_id set_of sort_by
    insert_by as_bytes hex_digits max_or_zero canonical_hash canonical_hash_hex to_canonical_bytes
    pop pick cmp priority_score tie_break params_hash policy_id quantize_float quantize_weights
    to_quantized expand expand_loop expand_siblings finish from_store graph_snapshot_hash push_turn
    round seal select_turns take_candidate to_round visit visit_all get_turn get_parents
    get_children get_siblings get_edges add_others gather link sibling_list canonical_string
    fold_equal is_valid_format issue_hmac mac_bytes verify_hmac compute_fingerprint
    content_hash_bytes from_content_hashes from_stats new_with_secret to_le_bytes from_verified
    has_content_hash bundle_turn_ids
run-ids = refl

-- Room for the whole conversation.
abbrev pub wide_policy : SlicePolicyV1 ℕ
wide_policy = record {
  version = codes "w";
  max_nodes = 6;
  max_radius = 6;
  phase_weights = policy.phase_weights;
  salience_weight = 300;
  distance_decay = 900;
  include_siblings = false;
  max_siblings_per_node = 2;
}

abbrev pub wide_bundle : AdmissibleEvidenceBundle ℕ
wide_bundle = bundle_of (slice floats crypto store wide_policy secret now 3)

pub wide-ok : slice floats crypto store wide_policy secret now 3 ≡ some (ok wide_bundle)
unfolding slice add_turn add_edge Memory.new Scoring.new V1.get get insert insert_id set_of sort_by
    insert_by as_bytes hex_digits max_or_zero canonical_hash canonical_hash_hex to_canonical_bytes
    pop pick cmp priority_score tie_break params_hash policy_id quantize_float quantize_weights
    to_quantized expand expand_loop expand_siblings finish from_store graph_snapshot_hash push_turn
    round seal select_turns take_candidate to_round visit visit_all get_turn get_parents
    get_children get_siblings get_edges add_others gather link sibling_list canonical_string
    fold_equal is_valid_format issue_hmac mac_bytes verify_hmac compute_fingerprint
    content_hash_bytes from_content_hashes from_stats new_with_secret to_le_bytes from_verified
    has_content_hash
wide-ok = refl

pub wide-few : length (bundle_turn_ids wide_bundle) ≡ 4
unfolding slice add_turn add_edge Memory.new Scoring.new V1.get get insert insert_id set_of sort_by
    insert_by as_bytes hex_digits max_or_zero canonical_hash canonical_hash_hex to_canonical_bytes
    pop pick cmp priority_score tie_break params_hash policy_id quantize_float quantize_weights
    to_quantized expand expand_loop expand_siblings finish from_store graph_snapshot_hash push_turn
    round seal select_turns take_candidate to_round visit visit_all get_turn get_parents
    get_children get_siblings get_edges add_others gather link sibling_list canonical_string
    fold_equal is_valid_format issue_hmac mac_bytes verify_hmac compute_fingerprint
    content_hash_bytes from_content_hashes from_stats new_with_secret to_le_bytes from_verified
    has_content_hash bundle_turn_ids
wide-few = refl

pub parents_three : store.get_parents 3 ≡ ok (1 ∷ [])
unfolding get_parents get insert insert_id add_turn add_edge link Memory.new
parents_three = refl

pub turn_one_there : store.get_turn 1 ≡ ok (some turn_one)
unfolding get_turn get insert insert_id add_turn add_edge link Memory.new
turn_one_there = refl
