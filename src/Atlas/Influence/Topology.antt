-- ===== src/Atlas/Influence/Topology.antt =====
-- The topology of phases in src/atlas/influence.rs. The order in which a `HashMap` is walked does not
-- matter here, so it is kept as a `BTreeMap` is.
use admissibility_kernel.Base.{
  ℕ, ◌+◌, List, [], ◌∷◌, ◌++◌, map, Option, none, some, Ordering, compare, Str, codes, take, ◌==◌,
  if◌then◌else◌,
}
use admissibility_kernel.Base.Int.{pos}
use admissibility_kernel.Base.Order.{nat_ord, list_ord, list_cmp, then_cmp}
use admissibility_kernel.Base.Set.{is_less}
use admissibility_kernel.Base.Sort.{sort_by}
use admissibility_kernel.Base.Tree.{get, insert}
use admissibility_kernel.Crates.{Floats, Crypto, Value, Fields, int, float, str, obj, end, field}
use admissibility_kernel.Canonical.{seq, canonical_hash_hex}
use admissibility_kernel.Types.Phase.{
  Phase, exploration, debugging, planning, consolidation, synthesis,
}
use admissibility_kernel.Types.Diversity.{phase_rank}
use admissibility_kernel.Types.Slice.{SliceExport}
use admissibility_kernel.Atlas.Overlap.{OverlapEdge}
use admissibility_kernel.Atlas.Influence.{
  BridgeTurn, anchor_phase, compute_influence, extract_bridges,
}

pub record PhaseTopologyStats (F : Type 0) : Type 0 where
  pub phase_pair_overlaps : List (Str × F)
  pub phase_centroids : List (Str × List Str)
  pub cross_phase_bridges : List BridgeTurn
  pub stats_hash : Str

unfoldable pub phase_to_string : Phase → Str
phase_to_string exploration = codes "exploration"
phase_to_string debugging = codes "debugging"
phase_to_string planning = codes "planning"
phase_to_string consolidation = codes "consolidation"
phase_to_string synthesis = codes "synthesis"

unfoldable pub make_phase_pair_key : Phase → Phase → Str
unfolding phase_to_string
make_phase_pair_key a b =
    let a_str = phase_to_string a in
    let b_str = phase_to_string b in
    if is_less (list_cmp a_str b_str)
    then a_str ++ (codes "_" ++ b_str)
    else b_str ++ (codes "_" ++ a_str)

-- `*phase_connectivity.entry(phase).or_default().entry(id).or_default() += 1`
unfoldable pub connect :
    Option Phase → Str → List (Str × List (Str × ℕ)) → List (Str × List (Str × ℕ))
unfolding phase_to_string
connect none id connectivity = connectivity
connect (some phase) id connectivity =
    let key = phase_to_string phase in
    let inner : List (Str × ℕ) = elim (get key connectivity) [ none ↦ [] | some m ↦ m ] in
    let count : ℕ = elim (get id inner) [ none ↦ 0 | some n ↦ n ] in
    insert key (insert id (count + 1) inner) connectivity

-- The most connected come first, then the least identifiers.
abbrev pub centroid_cmp : Str × ℕ → Str × ℕ → Ordering
centroid_cmp a b = then_cmp (compare b.1 a.1) (list_cmp a.0 b.0)

unfoldable pub top_slices : ℕ → List (Str × ℕ) → List Str
top_slices n slices = map (λ c. c.0) (take n (sort_by centroid_cmp slices))

module _ {F : Type 0} where
  -- What the derived `Serialize` writes for a phase.
  abbrev pub phase_value : Phase → Value F
  phase_value exploration = str (codes "Exploration")
  phase_value debugging = str (codes "Debugging")
  phase_value planning = str (codes "Planning")
  phase_value consolidation = str (codes "Consolidation")
  phase_value synthesis = str (codes "Synthesis")

  abbrev pub bridge_value : BridgeTurn → Value F
  bridge_value b = obj (
      field (codes "turn_id") (str b.turn_id) (
        field (codes "bridged_phases") (seq (map phase_value b.bridged_phases))
          (field (codes "total_appearances") (int (pos b.total_appearances)) end)))

  -- A map, in the order of its keys.
  abbrev pub entries_value : {V : Type 0} → (V → Value F) → List (Str × V) → Fields F
  entries_value write [] = end
  entries_value write ((k, v) ∷ m) = field k (write v) (entries_value write m)

  -- `PhaseTopologyStats::new`
  unfoldable pub new_stats :
      Crypto F → List (Str × F) → List (Str × List Str) → List BridgeTurn → PhaseTopologyStats F
  new_stats cr overlaps centroids bridges = record {
    phase_pair_overlaps = overlaps;
    phase_centroids = centroids;
    cross_phase_bridges = bridges;
    stats_hash = canonical_hash_hex cr (
        seq (
          obj (entries_value float overlaps)
          ∷ obj (entries_value (λ ids. seq (map str ids)) centroids)
          ∷ seq (map bridge_value bridges)
          ∷ []));
  }

  -- The phase of each slice, by its identifier: a later slice replaces an earlier one.
  unfoldable pub slice_phases : List (SliceExport F) → List (Str × Phase) → List (Str × Phase)
  slice_phases [] phases = phases
  slice_phases (s ∷ slices) phases = slice_phases slices (insert s.slice_id (anchor_phase s) phases)

  unfoldable pub connect_edges :
      List (Str × Phase)
      → List (OverlapEdge F)
      → List (Str × List (Str × ℕ))
      → List (Str × List (Str × ℕ))
  unfolding connect
  connect_edges phases [] connectivity = connectivity
  connect_edges phases (e ∷ edges) connectivity = connect_edges phases edges (
      connect (get e.slice_b phases) e.slice_b
        (connect (get e.slice_a phases) e.slice_a connectivity))

module _ {F : Type 0} (fl : Floats F) where
  -- The sum and the number of the overlaps between slices of two phases.
  unfoldable pub add_pair :
      Option Phase → Option Phase → F → List (Str × (F × ℕ)) → List (Str × (F × ℕ))
  unfolding make_phase_pair_key
  add_pair (some a) (some b) jaccard sums =
      let key = make_phase_pair_key a b in
      let entry : F × ℕ = elim (get key sums) [ none ↦ (fl.decimal 0 1, 0) | some e ↦ e ] in
      if phase_rank a == phase_rank b
      then sums
      else insert key (fl.add entry.0 jaccard, entry.1 + 1) sums
  add_pair _ _ jaccard sums = sums

  unfoldable pub pair_sums :
      List (Str × Phase) → List (OverlapEdge F) → List (Str × (F × ℕ)) → List (Str × (F × ℕ))
  unfolding add_pair
  pair_sums phases [] sums = sums
  pair_sums phases (e ∷ edges) sums =
      pair_sums phases edges (add_pair (get e.slice_a phases) (get e.slice_b phases) e.jaccard sums)

  unfoldable pub compute_phase_topology :
      Crypto F → List (SliceExport F) → List (OverlapEdge F) → ℕ → PhaseTopologyStats F
  unfolding slice_phases pair_sums connect_edges top_slices new_stats
  compute_phase_topology cr slices overlap_edges max_centroids_per_phase =
      let phases = slice_phases slices [] in
      let sums = pair_sums phases overlap_edges [] in
      let connectivity = connect_edges phases overlap_edges [] in
      new_stats cr (map (λ e. (e.0, fl.div e.1.0 (fl.of_usize e.1.1))) sums)
        (map (λ e. (e.0, top_slices max_centroids_per_phase e.1)) connectivity)
        (extract_bridges (compute_influence fl cr slices))
