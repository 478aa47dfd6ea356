-- ===== src/Samples/Programs.antt =====
-- The theorem on the running program, over a database of one row for each identifier.
use admissibility_kernel.Base.{◌≤◌, ◌≡◌, refl, true, [], Option, none, some, Result, ok, length}
use admissibility_kernel.Base.Tree.{get, insert, insert_id, set_of}
use admissibility_kernel.Policy.V1
use admissibility_kernel.Base.Sort.{sort_by, insert_by}
use admissibility_kernel.Policy.Scoring
use admissibility_kernel.Slicer.{slice}
use admissibility_kernel.Types.Turn
use admissibility_kernel.Types.Turn.{with_content_hash}
use admissibility_kernel.Types.Role
use admissibility_kernel.Types.Phase
use admissibility_kernel.Store.Postgres
use admissibility_kernel.Store.Postgres.{
  parse_turn_row, parse_found, as_u32, as_i32, parse_edge_row,
}
use admissibility_kernel.Store.Postgres.Config.{Environment}
use admissibility_kernel.Service.State.{with_registry, with_defaults, from_policy}
use admissibility_kernel.Service.Messages.{SliceRequest, SliceResponse, Failure}
use admissibility_kernel.Service.Routes.{
  to_dto, choose_policy, respond, slice_handler, verify_token_handler,
}
use admissibility_kernel.Service.Routes.Promises.{ask}
use admissibility_kernel.Service.Program.{start_state, choose_secret}
use admissibility_kernel.Service.Program.Start.{running, start-slice_handler}
use admissibility_kernel.Base.{as_bytes, hex_digits}
use admissibility_kernel.Base.Int.{max_or_zero}
use admissibility_kernel.Canonical.{canonical_hash, canonical_hash_hex, to_canonical_bytes}
use admissibility_kernel.Slicer.Frontier.{pop, pick}
use admissibility_kernel.Policy.Scoring.{cmp, priority_score, tie_break}
use admissibility_kernel.Policy.V1.{
  params_hash, policy_id, quantize_float, quantize_weights, to_quantized,
}
use admissibility_kernel.Slicer.{
  expand, expand_loop, expand_siblings, finish, from_store, graph_snapshot_hash, push_turn, round,
  seal, select_turns, take_candidate, to_round, visit, visit_all,
}
use admissibility_kernel.Types.Slice.Token.{
  canonical_string, fold_equal, is_valid_format, issue_hmac, mac_bytes, verify_hmac,
}
use admissibility_kernel.Types.Slice.{
  compute_fingerprint, content_hash_bytes, from_content_hashes, from_stats, new_with_secret,
  to_le_bytes,
}
use admissibility_kernel.Types.Admissible.{from_verified}
use admissibility_kernel.Types.Turn.{has_content_hash}
use admissibility_kernel.Policy.Scoring
use admissibility_kernel.Samples.{floats, crypto, crypto_laws}
use admissibility_kernel.Samples.Graph.{now}
use admissibility_kernel.Samples.Records.{db, db-IsKeyed}

abbrev env : Environment
env name = none

abbrev plain : SliceRequest
plain = record { anchor_turn_id = crypto.uuid_string 3; policy_ref = none }

abbrev response_of : Option (Result Failure SliceResponse) → SliceResponse
response_of (some (ok resp)) = resp
response_of _ = record {
  slice = record {
    slice_id = [];
    anchor_turn_id = [];
    turn_ids = [];
    edge_count = 0;
    policy_id = [];
    policy_params_hash = [];
    schema_version = [];
    graph_snapshot_hash = [];
    admissibility_token = [];
  };
  policy_ref = record { policy_id = []; params_hash = [] };
}

abbrev answer : Option (Result Failure SliceResponse)
answer = slice_handler floats crypto (λ s. s) (λ r. []) now (running floats crypto db env) plain

answered : answer ≡ some (ok (response_of answer))
unfolding slice Scoring.new V1.get get insert insert_id set_of sort_by insert_by as_bytes hex_digits
    max_or_zero canonical_hash canonical_hash_hex to_canonical_bytes pop pick cmp priority_score
    tie_break params_hash policy_id quantize_float quantize_weights to_quantized expand expand_loop
    expand_siblings finish from_store graph_snapshot_hash push_turn round seal select_turns
    take_candidate to_round visit visit_all canonical_string fold_equal is_valid_format issue_hmac
    mac_bytes verify_hmac compute_fingerprint content_hash_bytes from_content_hashes from_stats
    new_with_secret to_le_bytes from_verified has_content_hash slice_handler respond choose_policy
    to_dto start_state with_registry with_defaults choose_secret V1.default from_policy
    Postgres.get_turn Postgres.get_parents Postgres.get_children Postgres.get_siblings
    Postgres.get_edges parse_found parse_turn_row Turn.new with_content_hash Role.from_str
    Phase.from_str as_u32 as_i32
answered = refl

start-slice_handler_example :
    (length (response_of answer).slice.turn_ids ≤ 256)
    × ((verify_token_handler crypto
          (running floats crypto db env)
          (ask (response_of answer).slice)).valid
        ≡ true)
start-slice_handler_example =
    start-slice_handler floats crypto crypto_laws db env now (λ s. s) (λ r. []) db-IsKeyed plain
      (response_of answer) refl answered
