-- ===== src/Atlas/Overlap/Pairs.antt =====
-- The edges of the graph of overlaps are the overlaps of the pairs of slices.
use mathlib.Core.List.Memᴰ
use mathlib.Core.List.Permᴰ
use admissibility_kernel.Base.{
  ℕ, ◌+◌, ◌-◌, ◌<◌, ◌≡◌, ◌⊎◌, ◌↔◌, refl, subst, inl, inr, List, [], ◌∷◌, map, Memᴰ, Str, true,
  length, ltb, lt→ltb, ltb→lt, Bool-cases,
}
use admissibility_kernel.Base.Order.{nat_ord, list_ord}
use admissibility_kernel.Base.Set.{collect, intersection}
use admissibility_kernel.Base.Membership.{Memᴰ-perm}
use admissibility_kernel.Base.Sort.{sort_by-perm}
use admissibility_kernel.Crates.{Floats, fge, Crypto}
use admissibility_kernel.Types.Slice.{SliceExport, turn_ids}
use admissibility_kernel.Atlas.Overlap.{
  OverlapEdge, new_edge, new_graph, slice_turns, pair_edges, row, all_pairs, compute_overlap,
  overlap_cmp,
}

module _ {F : Type 0} (fl : Floats F) (cr : Crypto F) (min_jaccard : F) where
  abbrev pub turn_set : SliceExport F → List Str
  turn_set s = collect (map cr.uuid_string (turn_ids s.turns))

  -- How many turns the slices share.
  abbrev pub shared : SliceExport F → SliceExport F → ℕ
  shared s t = length (intersection (turn_set s) (turn_set t))

  -- Their part of all turns of the two slices.
  abbrev pub similarity : SliceExport F → SliceExport F → F
  similarity s t =
      fl.div (fl.of_usize (shared s t))
        (fl.of_usize (length (turn_set s) + length (turn_set t) - shared s t))

  -- The edge is that of the two slices, which share turns, and enough of them.
  pub record IsOverlap (s t : SliceExport F) (e : OverlapEdge F) : Type 0 where
    pub joins : e ≡ new_edge s.slice_id t.slice_id (shared s t) (similarity s t)
    pub some_shared : 0 < shared s t
    pub enough : fge fl (similarity s t) min_jaccard ≡ true

  -- The first slice stands before the second.
  abbrev pub IsPair : SliceExport F → SliceExport F → List (SliceExport F) → Type 0
  IsPair s t [] = ⊥
  IsPair s t (a ∷ later) = ((s ≡ a) × Memᴰ t later) ⊎ IsPair s t later

  pair_edges-IsOverlap :
      (s t : SliceExport F) (e : OverlapEdge F)
      → Memᴰ e (pair_edges fl min_jaccard (slice_turns cr s) (slice_turns cr t))
      → IsOverlap s t e
  unfolding pair_edges slice_turns
  pair_edges-IsOverlap s t e m = elim (Bool-cases (ltb 0 (shared s t))) [
    | inl some_turns ↦ elim (Bool-cases (fge fl (similarity s t) min_jaccard)) [
      | inl near ↦ record {
        joins = Memᴰ.eq_of_singleton (rw (some_turns, near) at m);
        some_shared = ltb→lt 0 (shared s t) some_turns;
        enough = near;
      }
      | inr far ↦ absurd (Memᴰ.not-nil (rw (some_turns, far) at m))
    ]
    | inr no_turns ↦ absurd (Memᴰ.not-nil (rw no_turns at m))
  ]

  IsOverlap-pair_edges :
      (s t : SliceExport F) (e : OverlapEdge F)
      → IsOverlap s t e
      → Memᴰ e (pair_edges fl min_jaccard (slice_turns cr s) (slice_turns cr t))
  unfolding pair_edges slice_turns
  IsOverlap-pair_edges s t e o =
      rw (lt→ltb 0 (shared s t) o.some_shared, o.enough) (Memᴰ.head o.joins)

  row-IsOverlap :
      (s : SliceExport F) (slices : List (SliceExport F)) (e : OverlapEdge F)
      → Memᴰ e (row fl min_jaccard (slice_turns cr s) (map (slice_turns cr) slices))
      → (t : SliceExport F) × Memᴰ t slices × IsOverlap s t e
  unfolding row
  row-IsOverlap s [] e m = absurd (Memᴰ.not-nil m)
  row-IsOverlap s (t ∷ slices) e m =
      let here = pair_edges fl min_jaccard (slice_turns cr s) (slice_turns cr t) in
      elim (Memᴰ.append_cases here m) [
        | inl found ↦ (t, Memᴰ.head refl, pair_edges-IsOverlap s t e found)
        | inr later ↦ let (u, there, o) = row-IsOverlap s slices e later in (u, Memᴰ.tail there, o)
      ]

  IsOverlap-row :
      (s t : SliceExport F) (slices : List (SliceExport F)) (e : OverlapEdge F)
      → Memᴰ t slices
      → IsOverlap s t e
      → Memᴰ e (row fl min_jaccard (slice_turns cr s) (map (slice_turns cr) slices))
  unfolding row
  IsOverlap-row s t [] e m o = absurd (Memᴰ.not-nil m)
  IsOverlap-row s t (u ∷ slices) e m o =
      let here = pair_edges fl min_jaccard (slice_turns cr s) (slice_turns cr u) in
      let later = row fl min_jaccard (slice_turns cr s) (map (slice_turns cr) slices) in
      elim (Memᴰ.cases_cons m) [
        | inl same ↦
            Memᴰ.append_left later
              (IsOverlap-pair_edges s u e (subst (λ x. IsOverlap s x e) same o))
        | inr there ↦ Memᴰ.append_right here (IsOverlap-row s t slices e there o)
      ]

  all_pairs-IsOverlap :
      (slices : List (SliceExport F)) (e : OverlapEdge F)
      → Memᴰ e (all_pairs fl min_jaccard (map (slice_turns cr) slices))
      → (s : SliceExport F) × (t : SliceExport F) × IsPair s t slices × IsOverlap s t e
  unfolding all_pairs
  all_pairs-IsOverlap [] e m = absurd (Memᴰ.not-nil m)
  all_pairs-IsOverlap (s ∷ slices) e m =
      let mine = row fl min_jaccard (slice_turns cr s) (map (slice_turns cr) slices) in
      elim (Memᴰ.append_cases mine m) [
        | inl found ↦
            let (t, there, o) = row-IsOverlap s slices e found in (s, t, inl (refl, there), o)
        | inr later ↦
            let (u, t, pair, o) = all_pairs-IsOverlap slices e later in (u, t, inr pair, o)
      ]

  IsOverlap-all_pairs :
      (s t : SliceExport F) (slices : List (SliceExport F)) (e : OverlapEdge F)
      → IsPair s t slices
      → IsOverlap s t e
      → Memᴰ e (all_pairs fl min_jaccard (map (slice_turns cr) slices))
  unfolding all_pairs
  IsOverlap-all_pairs s t [] e pair o = absurd pair
  IsOverlap-all_pairs s t (a ∷ slices) e (inl (same, there)) o =
      Memᴰ.append_left (all_pairs fl min_jaccard (map (slice_turns cr) slices))
        (IsOverlap-row a t slices e there (subst (λ x. IsOverlap x t e) same o))
  IsOverlap-all_pairs s t (a ∷ slices) e (inr pair) o =
      Memᴰ.append_right (row fl min_jaccard (slice_turns cr a) (map (slice_turns cr) slices))
        (IsOverlap-all_pairs s t slices e pair o)

  -- An edge is in the graph of overlaps exactly if it is that of two slices of the list, one before
  -- the other, which share a turn and are at least as similar as the analyzer asks.
  pub compute_overlap_lem :
      (slices : List (SliceExport F)) (e : OverlapEdge F)
      → Memᴰ e (compute_overlap fl cr min_jaccard slices).edges
        ↔ ((s : SliceExport F) × (t : SliceExport F) × IsPair s t slices × IsOverlap s t e)
  unfolding compute_overlap new_graph
  compute_overlap_lem slices e =
      let sorted =
        sort_by-perm overlap_cmp (all_pairs fl min_jaccard (map (slice_turns cr) slices)) in
      (
        λ m. all_pairs-IsOverlap slices e (Memᴰ-perm sorted m),
        λ (s, t, pair, o). Memᴰ-perm (Permᴰ.symm sorted) (IsOverlap-all_pairs s t slices e pair o),
      )
