-- ===== src/Samples/Overlaps.antt =====
-- The theorems on overlaps and snapshots, at the sample graph.
use admissibility_kernel.Base.{ℕ, ◌≡◌, refl, true, [], ◌∷◌, map, Permᴰ, codes}
use admissibility_kernel.Base.Order.{nat_ord, list_ord}
use admissibility_kernel.Base.Tree.{get, insert}
use admissibility_kernel.Base.Sort.{sort_by, insert_by}
use admissibility_kernel.Atlas.Overlap.{
  OverlapGraph, compute_overlap, new_edge, hub_slices, pair_edges, raise, count_degrees,
}
use admissibility_kernel.Atlas.Overlap.Symmetry.{compute_overlap-perm}
use admissibility_kernel.Atlas.Snapshot.{SnapshotInput, compute_snapshot, verify_snapshot}
use admissibility_kernel.Atlas.Snapshot.Same.{verify_snapshot-perm}
use admissibility_kernel.Base.Int.{pos}
use admissibility_kernel.Base.{◌↔◌, Memᴰ}
use admissibility_kernel.Types.Slice.{SliceExport}
use admissibility_kernel.Atlas.Overlap.{OverlapEdge}
use admissibility_kernel.Atlas.Overlap.Pairs.{IsPair, IsOverlap, compute_overlap_lem}
use admissibility_kernel.Samples.{floats, crypto}
use admissibility_kernel.Samples.Graph.{bundle, wide_bundle, edge}

compute_overlap-perm_example :
    Permᴰ
      (compute_overlap floats crypto 0 (bundle.slice ∷ wide_bundle.slice ∷ [])).edges
      (compute_overlap floats crypto 0 (wide_bundle.slice ∷ bundle.slice ∷ [])).edges
compute_overlap-perm_example = compute_overlap-perm floats crypto 0 (Permᴰ.swap refl refl)

-- The two slices share three turns of four.
abbrev shared_three : OverlapEdge ℕ
shared_three = new_edge bundle.slice.slice_id wide_bundle.slice.slice_id 3 750

compute_overlap_lem_example :
    Memᴰ shared_three
      (compute_overlap floats crypto 0 (bundle.slice ∷ wide_bundle.slice ∷ [])).edges
    ↔ ((s : SliceExport ℕ) × (t : SliceExport ℕ) × IsPair floats crypto 0 s t
          (bundle.slice ∷ wide_bundle.slice ∷ [])
        × IsOverlap floats crypto 0 s t shared_three)
compute_overlap_lem_example =
    compute_overlap_lem floats crypto 0 (bundle.slice ∷ wide_bundle.slice ∷ []) shared_three

-- Slice "a" overlaps with "b" and "c".
abbrev overlaps : OverlapGraph ℕ
overlaps = record {
  edges = new_edge (codes "a") (codes "b") 2 500 ∷ new_edge (codes "c") (codes "a") 1 250 ∷ [];
  slice_count = 3;
  graph_hash = [];
  min_jaccard = 0;
}

hub : hub_slices overlaps 2 ≡ (codes "a", 2) ∷ []
unfolding new_edge hub_slices count_degrees raise insert get sort_by insert_by
hub = refl

-- One turn of three is shared; the ends are put in order.
pair_found :
    map
      (λ e. e.slice_a)
      (pair_edges floats 0
        (codes "b", codes "x" ∷ codes "y" ∷ [])
        (codes "a", codes "y" ∷ codes "z" ∷ []))
    ≡ codes "a" ∷ []
unfolding pair_edges new_edge
pair_found = refl

abbrev listed : SnapshotInput
listed = record {
  turn_ids = 1 ∷ 2 ∷ [];
  edges = edge 1 2 ∷ edge 1 3 ∷ [];
  timestamps = pos 5 ∷ pos 9 ∷ [];
}

abbrev listed_again : SnapshotInput
listed_again = record {
  turn_ids = 2 ∷ 1 ∷ [];
  edges = edge 1 3 ∷ edge 1 2 ∷ [];
  timestamps = pos 9 ∷ pos 5 ∷ [];
}

verify_snapshot-perm_example :
    (verify_snapshot crypto (pos 8) (compute_snapshot crypto (pos 7) listed) listed_again ≡ true)
    × ((compute_snapshot crypto (pos 7) listed).snapshot_id
        ≡ (compute_snapshot crypto (pos 8) listed_again).snapshot_id)
verify_snapshot-perm_example =
    verify_snapshot-perm crypto (pos 7) (pos 8) listed listed_again (Permᴰ.swap refl refl)
      (Permᴰ.swap refl refl) (Permᴰ.swap refl refl)
