-- ===== src/Samples/Atlas.antt =====
-- The theorems on influence, batches and bundles, at the slices of the sample graph.
use admissibility_kernel.Base.{
  arith, or_empty, ℕ, ◌≡◌, ◌↔◌, ◌⊎◌, refl, [], ◌∷◌, Permᴰ, All, contains, Option, none, some, codes,
  Result, ok, err, List,
}
use admissibility_kernel.Base.Order.{nat_ord, list_ord, list_cmp}
use admissibility_kernel.Base.Sort.{sort_by, insert_by}
use admissibility_kernel.Base.Tree.{get, insert, Increasing}
use admissibility_kernel.Canonical.{canonical_hash_hex, canonical_hash, to_canonical_bytes}
use admissibility_kernel.Types.Phase.{planning}
use admissibility_kernel.Atlas.Influence.{
  new_scores, count_slices, count_turns, count_turn, count_one, increment, anchor_phase,
  to_influence, is_cross_phase, PhaseCounts, compute_influence, get_influence, dominant_phase,
}
use admissibility_kernel.Atlas.Influence.Scores.{compute_influence-perm}
use admissibility_kernel.Atlas.Influence.Bridges.{IsAnswer, get_influence_lem}
use admissibility_kernel.Atlas.BatchSlicer.{
  BatchSliceResult, slice_all, new_anchors, policy_value, build_turn_slice_index,
}
use admissibility_kernel.Atlas.BatchSlicer.Anchors.{holds, set_of_turns, new_anchors_lem}
use admissibility_kernel.Atlas.BatchSlicer.Outcome.{IsOutcome, slice_all_lem}
use admissibility_kernel.Atlas.BatchSlicer.Signed.{IsSigned, slice_all-IsSigned}
use admissibility_kernel.Atlas.BatchSlicer.Index.{listed_in, build_turn_slice_index_lem}
use admissibility_kernel.Atlas.Bundler
use admissibility_kernel.Atlas.Bundler.{AtlasBundler, AtlasManifest, Panic, try_build, new_bundler}
use admissibility_kernel.Atlas.Bundler.Manifest.{Missing, Complete, manifest_of, try_build_lem}
use admissibility_kernel.Slicer
use admissibility_kernel.Types.Slice.{SliceExport}
use admissibility_kernel.Base.{as_bytes, hex_digits}
use admissibility_kernel.Base.Int.{max_or_zero}
use admissibility_kernel.Slicer.Frontier.{pop, pick}
use admissibility_kernel.Policy.Scoring.{cmp, priority_score, tie_break}
use admissibility_kernel.Policy.V1.{
  params_hash, policy_id, quantize_float, quantize_weights, to_quantized,
}
use admissibility_kernel.Slicer.{
  expand, expand_loop, expand_siblings, finish, from_store, graph_snapshot_hash, push_turn, round,
  seal, select_turns, take_candidate, to_round, visit, visit_all,
}
use admissibility_kernel.Store.Memory.{
  get_turn, get_parents, get_children, get_siblings, get_edges, add_others, gather, link,
  sibling_list,
}
use admissibility_kernel.Types.Slice.Token.{
  canonical_string, fold_equal, is_valid_format, issue_hmac, mac_bytes, verify_hmac,
}
use admissibility_kernel.Types.Slice.{
  compute_fingerprint, content_hash_bytes, from_content_hashes, from_stats, new_with_secret,
  to_le_bytes,
}
use admissibility_kernel.Types.Admissible.{from_verified}
use admissibility_kernel.Types.Turn.{has_content_hash}
use admissibility_kernel.Policy.Scoring
use admissibility_kernel.Store.Memory
use admissibility_kernel.Store.Memory.{add_turn, add_edge}
use admissibility_kernel.Policy.V1
use admissibility_kernel.Base.Tree.{insert_id, set_of}
use admissibility_kernel.Slicer.{slice}
use admissibility_kernel.Atlas.BatchSlicer.{
  slice_loop, push_slice, finish_batch, new_entry, new_registry,
}
use admissibility_kernel.Store.Memory.Answers.{graph_store-IsHonest}
use admissibility_kernel.Atlas.Influence.Batches.{HasUuids, IsCounted, slice_all-influence}
use admissibility_kernel.Samples.{floats, crypto, crypto_laws}
use admissibility_kernel.Samples.Graph.{
  bundle, wide_bundle, store, policy, secret, now, graph-Built,
}

abbrev two : List (SliceExport ℕ)
two = bundle.slice ∷ wide_bundle.slice ∷ []

abbrev counts : PhaseCounts
counts = record { exploration = 0; debugging = 2; planning = 2; consolidation = 1; synthesis = 0 }

-- The last of the greatest counts.
dominant : dominant_phase counts ≡ some planning
unfolding dominant_phase
dominant = refl

compute_influence-perm_example :
    compute_influence floats crypto (bundle.slice ∷ wide_bundle.slice ∷ [])
    ≡ compute_influence floats crypto (wide_bundle.slice ∷ bundle.slice ∷ [])
compute_influence-perm_example = compute_influence-perm floats crypto (Permᴰ.swap refl refl)

get_influence_lem_example :
    IsAnswer floats crypto two
      (204 ∷ [])
      (get_influence (compute_influence floats crypto two) (204 ∷ []))
get_influence_lem_example = get_influence_lem floats crypto two (204 ∷ [])

new_anchors_lem_example :
    Increasing (new_anchors crypto (3 ∷ 1 ∷ 3 ∷ []) (codes "all")).anchors
    × ((a : ℕ)
        → contains (new_anchors crypto (3 ∷ 1 ∷ 3 ∷ []) (codes "all")).anchors a
          ≡ holds a (set_of_turns (3 ∷ 1 ∷ 3 ∷ [])))
    × ((new_anchors crypto (3 ∷ 1 ∷ 3 ∷ []) (codes "all")
          ≡ new_anchors crypto (1 ∷ 3 ∷ []) (codes "all"))
        ↔ (set_of_turns (3 ∷ 1 ∷ 3 ∷ []) ≡ set_of_turns (1 ∷ 3 ∷ [])))
new_anchors_lem_example = new_anchors_lem crypto (codes "all") (3 ∷ 1 ∷ 3 ∷ []) (1 ∷ 3 ∷ [])

-- The second anchor is not in the store.
slice_all_lem_example :
    IsOutcome floats crypto store policy secret now
      (2 ∷ 9 ∷ [])
      (codes "s")
      (codes "a")
      (slice_all floats crypto store policy secret now (2 ∷ 9 ∷ []) (codes "s") (codes "a"))
slice_all_lem_example =
    slice_all_lem floats crypto store policy secret now (2 ∷ 9 ∷ []) (codes "s") (codes "a")

abbrev batch_of : Option (Result Slicer.SlicerError (BatchSliceResult ℕ)) → BatchSliceResult ℕ
batch_of (some (ok r)) = r
batch_of _ = record {
  snapshot_id = [];
  anchor_set_hash = [];
  policy_id = [];
  policy_params_hash = [];
  slices = [];
  registry = record { entries = []; registry_hash = [] };
}

-- The batch of turns 2 and 3.
abbrev batch : BatchSliceResult ℕ
batch =
    batch_of (slice_all floats crypto store policy secret now (2 ∷ 3 ∷ []) (codes "s") (codes "a"))

batch_run :
    slice_all floats crypto store policy secret now (2 ∷ 3 ∷ []) (codes "s") (codes "a")
    ≡ some (ok batch)
unfolding slice_all slice add_turn add_edge Memory.new Scoring.new V1.get get insert insert_id
    set_of sort_by insert_by as_bytes hex_digits max_or_zero canonical_hash canonical_hash_hex
    to_canonical_bytes pop pick cmp priority_score tie_break params_hash policy_id quantize_float
    quantize_weights to_quantized expand expand_loop expand_siblings finish from_store
    graph_snapshot_hash push_turn round seal select_turns take_candidate to_round visit visit_all
    get_turn get_parents get_children get_siblings get_edges add_others gather link sibling_list
    canonical_string fold_equal is_valid_format issue_hmac mac_bytes verify_hmac compute_fingerprint
    content_hash_bytes from_content_hashes from_stats new_with_secret to_le_bytes from_verified
    has_content_hash slice_loop push_slice finish_batch new_entry new_registry
batch_run = refl

slice_all-IsSigned_example :
    All (IsSigned floats crypto crypto_laws store policy secret now) batch.slices
    × (batch.policy_params_hash ≡ canonical_hash_hex crypto (policy_value policy))
slice_all-IsSigned_example =
    slice_all-IsSigned floats crypto crypto_laws store policy secret now (2 ∷ 3 ∷ []) (codes "s")
      (codes "a") batch batch_run

build_turn_slice_index_lem_example :
    or_empty (get (202 ∷ []) (build_turn_slice_index crypto batch))
    ≡ sort_by list_cmp (listed_in crypto (202 ∷ []) batch.slices)
build_turn_slice_index_lem_example = build_turn_slice_index_lem crypto batch (202 ∷ [])

-- The turns of the batch have small identifiers.
batch-HasUuids : All HasUuids batch.slices
unfolding slice_all slice add_turn add_edge Memory.new Scoring.new V1.get get insert insert_id
    set_of sort_by insert_by as_bytes hex_digits max_or_zero canonical_hash canonical_hash_hex
    to_canonical_bytes pop pick cmp priority_score tie_break params_hash policy_id quantize_float
    quantize_weights to_quantized expand expand_loop expand_siblings finish from_store
    graph_snapshot_hash push_turn round seal select_turns take_candidate to_round visit visit_all
    get_turn get_parents get_children get_siblings get_edges add_others gather link sibling_list
    canonical_string fold_equal is_valid_format issue_hmac mac_bytes verify_hmac compute_fingerprint
    content_hash_bytes from_content_hashes from_stats new_with_secret to_le_bytes from_verified
    has_content_hash slice_loop push_slice finish_batch new_entry new_registry get_influence
    compute_influence new_scores count_slices count_turns count_turn count_one increment
    anchor_phase to_influence is_cross_phase
batch-HasUuids = (
  (omega arith, (omega arith, (omega arith, tt))),
  ((omega arith, (omega arith, (omega arith, tt))), tt),
)

slice_all-influence_example :
    IsCounted floats crypto crypto_laws store policy secret now
      (2 ∷ 3 ∷ [])
      batch.slices
      2
      (get_influence (compute_influence floats crypto batch.slices) (crypto.uuid_string 2))
slice_all-influence_example =
    slice_all-influence floats crypto crypto_laws store policy secret now (2 ∷ 3 ∷ []) (codes "s")
      (codes "a") batch 2 batch_run (graph_store-IsHonest crypto floats graph-Built) (omega arith)
      (omega arith) batch-HasUuids (omega arith)

abbrev first_run : AtlasBundler ℕ
first_run = new_bundler

try_build_lem_example :
    (Missing crypto now first_run
      × (try_build crypto now first_run ≡ ok none)
      × ((message : Panic) × (Bundler.build crypto now first_run ≡ err message)))
    ⊎ ((c : Complete crypto now first_run) × (try_build crypto now first_run
          ≡ ok (some (manifest_of crypto now first_run c)))
        × (Bundler.build crypto now first_run ≡ ok (manifest_of crypto now first_run c)))
try_build_lem_example = try_build_lem crypto now first_run
