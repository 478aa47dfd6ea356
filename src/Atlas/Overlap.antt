-- ===== src/Atlas/Overlap.antt =====
-- src/atlas/overlap.rs: the graph of slices that share turns.
pub mod Symmetry
pub mod Pairs
use admissibility_kernel.Base.{
  ℕ, suc, ◌+◌, ◌-◌, List, [], ◌∷◌, ◌++◌, map, Bool, ◌||◌, Option, none, some, Ordering, compare,
  Str, codes, length, filter, ltb, leb, if◌then◌else◌,
}
use admissibility_kernel.Base.Int.{pos}
use admissibility_kernel.Base.Order.{nat_ord, list_ord, list_cmp, pair_cmp}
use admissibility_kernel.Base.Set.{same, collect, intersection, is_less}
use admissibility_kernel.Base.Sort.{sort_by}
use admissibility_kernel.Base.Tree.{get, insert}
use admissibility_kernel.Crates.{Floats, fge, Crypto, Value, int, float, str, obj, end, field}
use admissibility_kernel.Canonical.{seq, canonical_hash_hex}
use admissibility_kernel.Types.Slice.{SliceExport, turn_ids}

pub record OverlapEdge (F : Type 0) : Type 0 where
  pub slice_a : Str
  pub slice_b : Str
  pub shared_turns : ℕ
  pub jaccard : F

pub record OverlapGraph (F : Type 0) : Type 0 where
  pub edges : List (OverlapEdge F)
  pub slice_count : ℕ
  pub graph_hash : Str
  pub min_jaccard : F

-- A slice's identifier and its set of turns, which are printed.
abbrev pub SliceTurns : Type 0
SliceTurns = Str × List Str

-- `*degrees.entry(id).or_default() += 1`
unfoldable pub raise : Str → List (Str × ℕ) → List (Str × ℕ)
raise id degrees = insert id (elim (get id degrees) [ none ↦ 1 | some n ↦ suc n ]) degrees

module _ {F : Type 0} where
  -- `OverlapEdge::new`
  unfoldable pub new_edge : Str → Str → ℕ → F → OverlapEdge F
  new_edge slice_a slice_b shared_turns jaccard =
      let ends : Str × Str =
        if is_less (list_cmp slice_a slice_b) then (slice_a, slice_b) else (slice_b, slice_a) in
      record { slice_a = ends.0; slice_b = ends.1; shared_turns = shared_turns; jaccard = jaccard }

  unfoldable pub edges_for_slice : OverlapGraph F → Str → List (OverlapEdge F)
  edges_for_slice g slice_id =
      filter (λ e. same e.slice_a slice_id || same e.slice_b slice_id) g.edges

  unfoldable pub neighbors : OverlapGraph F → Str → List Str
  unfolding edges_for_slice
  neighbors g slice_id =
      map (λ e. if same e.slice_a slice_id then e.slice_b else e.slice_a)
        (edges_for_slice g slice_id)

  -- The loop over the edges.
  unfoldable pub count_degrees : List (OverlapEdge F) → List (Str × ℕ) → List (Str × ℕ)
  count_degrees [] degrees = degrees
  count_degrees (e ∷ edges) degrees =
      count_degrees edges (raise e.slice_b (raise e.slice_a degrees))

  unfoldable pub hub_slices : OverlapGraph F → ℕ → List (Str × ℕ)
  unfolding count_degrees
  hub_slices g min_degree =
      sort_by (λ a b. compare b.1 a.1) (filter (λ d. leb min_degree d.1) (count_degrees g.edges []))

  -- The derived `Serialize`.
  abbrev pub overlap_value : OverlapEdge F → Value F
  overlap_value e = obj (
      field (codes "slice_a") (str e.slice_a) (
        field (codes "slice_b") (str e.slice_b) (
          field (codes "shared_turns") (int (pos e.shared_turns))
            (field (codes "jaccard") (float e.jaccard) end))))

  -- The order in which `compute` sorts.
  abbrev pub overlap_cmp : OverlapEdge F → OverlapEdge F → Ordering
  overlap_cmp a b = pair_cmp (a.slice_a, a.slice_b) (b.slice_a, b.slice_b)

module _ {F : Type 0} (cr : Crypto F) where
  -- `OverlapGraph::new`
  unfoldable pub new_graph : List (OverlapEdge F) → ℕ → F → OverlapGraph F
  new_graph edges slice_count min_jaccard = record {
    edges = edges;
    slice_count = slice_count;
    graph_hash = canonical_hash_hex cr (seq (map overlap_value edges));
    min_jaccard = min_jaccard;
  }

  unfoldable pub slice_turns : SliceExport F → SliceTurns
  slice_turns s = (s.slice_id, collect (map cr.uuid_string (turn_ids s.turns)))

module _ {F : Type 0} (fl : Floats F) (min_jaccard : F) where
  -- What the body of the two loops pushes.
  unfoldable pub pair_edges : SliceTurns → SliceTurns → List (OverlapEdge F)
  unfolding new_edge
  pair_edges (id_a, turns_a) (id_b, turns_b) =
      let shared = length (intersection turns_a turns_b) in
      let union_size = length turns_a + length turns_b - shared in
      let jaccard = fl.div (fl.of_usize shared) (fl.of_usize union_size) in
      if ltb 0 shared
      then (if fge fl jaccard min_jaccard then new_edge id_a id_b shared jaccard ∷ [] else [])
      else []

  -- The inner loop, of one slice with those after it.
  unfoldable pub row : SliceTurns → List SliceTurns → List (OverlapEdge F)
  row a [] = []
  row a (b ∷ later) = pair_edges a b ++ row a later

  -- The outer loop.
  unfoldable pub all_pairs : List SliceTurns → List (OverlapEdge F)
  unfolding row
  all_pairs [] = []
  all_pairs (a ∷ later) = row a later ++ all_pairs later

-- `OverlapAnalyzer::compute`
unfoldable pub compute_overlap :
    {F : Type 0} → Floats F → Crypto F → F → List (SliceExport F) → OverlapGraph F
compute_overlap fl cr min_jaccard slices =
    new_graph cr (sort_by overlap_cmp (all_pairs fl min_jaccard (map (slice_turns cr) slices)))
      (length slices) min_jaccard
