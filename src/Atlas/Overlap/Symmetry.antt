-- ===== src/Atlas/Overlap/Symmetry.antt =====
-- The graph of overlaps does not depend on the order of the slices, and its neighbours are mutual.
use mathlib.Core.List.Permᴰ
use admissibility_kernel.Base.{
  ℕ, ◌+◌, ◌-◌, ltb, filter, ◌||◌, if◌then◌else◌, ap₂, ◌≡◌, refl, ap, ◌∙◌, List, [], ◌∷◌, map, Permᴰ,
  Str, length, arith,
}
use admissibility_kernel.Base.Perm.{of_eq, append-perm, append_swap, regroup}
use admissibility_kernel.Base.Order.{Ord, nat_ord, list_ord}
use admissibility_kernel.Base.Set.{
  same, has, collect, intersection, collect-Separate, length-intersection_comm,
}
use admissibility_kernel.Base.Sort.{sort_by-perm}
use admissibility_kernel.Crates.{Floats, fge, Crypto}
use admissibility_kernel.Types.Slice.{SliceExport, turn_ids}
use admissibility_kernel.Atlas.Overlap.{
  OverlapEdge, OverlapGraph, SliceTurns, new_edge, edges_for_slice, neighbors, new_graph,
  slice_turns, pair_edges, row, all_pairs, compute_overlap, overlap_cmp,
}

module _ {F : Type 0} where
  new_edge_comm : (a b : Str) (n : ℕ) (j : F) → new_edge a b n j ≡ new_edge b a n j
  unfolding new_edge
  new_edge_comm a b n j =
      let o : Ord Str = list_ord in ground (arith, o.cmp_reverse a b, o.eq_of_cmp a b)

module _ {F : Type 0} (fl : Floats F) (min_jaccard : F) where
  -- What is pushed, from the sizes.
  abbrev pushed : Str → Str → ℕ → ℕ → List (OverlapEdge F)
  pushed a b shared sum =
      let jaccard = fl.div (fl.of_usize shared) (fl.of_usize (sum - shared)) in
      if ltb 0 shared
      then (if fge fl jaccard min_jaccard then new_edge a b shared jaccard ∷ [] else [])
      else []

  pushed_comm : (a b : Str) (shared sum : ℕ) → pushed a b shared sum ≡ pushed b a shared sum
  pushed_comm a b shared sum =
      let jaccard = fl.div (fl.of_usize shared) (fl.of_usize (sum - shared)) in
      ap (λ e. if ltb 0 shared then (if fge fl jaccard min_jaccard then e ∷ [] else []) else [])
        (new_edge_comm a b shared jaccard)

  -- The edge between two slices is the same from both sides.
  pub pair_edges_comm :
      (cr : Crypto F) (s t : SliceExport F)
      → pair_edges fl min_jaccard (slice_turns cr s) (slice_turns cr t)
        ≡ pair_edges fl min_jaccard (slice_turns cr t) (slice_turns cr s)
  unfolding pair_edges slice_turns
  pair_edges_comm cr s t =
      let a = collect (map cr.uuid_string (turn_ids s.turns)) in
      let b = collect (map cr.uuid_string (turn_ids t.turns)) in
      ap₂ (pushed s.slice_id t.slice_id)
        (length-intersection_comm a b (collect-Separate (map cr.uuid_string (turn_ids s.turns)))
          (collect-Separate (map cr.uuid_string (turn_ids t.turns))))
        (omega arith)
      ∙ pushed_comm s.slice_id t.slice_id (length (intersection b a)) (length b + length a)

module _ {F : Type 0} (fl : Floats F) (cr : Crypto F) (min_jaccard : F) where
  row-perm :
      (a : SliceTurns) {slices others : List (SliceExport F)}
      → Permᴰ slices others
      → Permᴰ
          (row fl min_jaccard a (map (slice_turns cr) slices))
          (row fl min_jaccard a (map (slice_turns cr) others))
  unfolding row
  row-perm a Permᴰ.nil = Permᴰ.nil
  row-perm a (Permᴰ.cons e p) =
      append-perm (of_eq (ap (λ s. pair_edges fl min_jaccard a (slice_turns cr s)) e))
        (row-perm a p)
  row-perm a (Permᴰ.swap {a = x} {b = y} {l = l} e f) =
      let edges = λ (s : SliceExport F). pair_edges fl min_jaccard a (slice_turns cr s) in
      let rest = row fl min_jaccard a (map (slice_turns cr) l) in
      Permᴰ.trans (append_swap (edges x) (edges y) rest)
        (append-perm (of_eq (ap edges f)) (append-perm (of_eq (ap edges e)) (Permᴰ.refl rest)))
  row-perm a (Permᴰ.trans p q) = Permᴰ.trans (row-perm a p) (row-perm a q)

  abbrev pairs : List (SliceExport F) → List (OverlapEdge F)
  pairs slices = all_pairs fl min_jaccard (map (slice_turns cr) slices)

  all_pairs-perm :
      {slices others : List (SliceExport F)}
      → Permᴰ slices others
      → Permᴰ
          (all_pairs fl min_jaccard (map (slice_turns cr) slices))
          (all_pairs fl min_jaccard (map (slice_turns cr) others))
  unfolding all_pairs row
  all_pairs-perm Permᴰ.nil = Permᴰ.nil
  all_pairs-perm (Permᴰ.cons {b = y} {l₁ = l} {l₂ = m} e p) =
      append-perm
        (Permᴰ.trans
          (of_eq (ap (λ s. row fl min_jaccard (slice_turns cr s) (map (slice_turns cr) l)) e))
          (row-perm (slice_turns cr y) p))
        (all_pairs-perm p)
  all_pairs-perm (Permᴰ.swap {a = x} {b = y} {l = l} e f) =
      let edges =
        λ (s t : SliceExport F). pair_edges fl min_jaccard (slice_turns cr s) (slice_turns cr t) in
      let others =
        λ (s : SliceExport F). row fl min_jaccard (slice_turns cr s) (map (slice_turns cr) l) in
      Permᴰ.trans (regroup (edges x y) (others x) (others y) (pairs l)) (
        append-perm
          (append-perm (of_eq (pair_edges_comm fl min_jaccard cr x y ∙ ap₂ edges f e))
            (of_eq (ap others f)))
          (append-perm (of_eq (ap others e)) (Permᴰ.refl (pairs l))))
  all_pairs-perm (Permᴰ.trans p q) = Permᴰ.trans (all_pairs-perm p) (all_pairs-perm q)

  -- Slices in another order have the same overlaps, as often, in some order.
  pub compute_overlap-perm :
      {slices others : List (SliceExport F)}
      → Permᴰ slices others
      → Permᴰ
          (compute_overlap fl cr min_jaccard slices).edges
          (compute_overlap fl cr min_jaccard others).edges
  unfolding compute_overlap new_graph
  compute_overlap-perm {slices} {others} p =
      Permᴰ.trans (sort_by-perm overlap_cmp (pairs slices))
        (Permᴰ.trans (all_pairs-perm p) (Permᴰ.symm (sort_by-perm overlap_cmp (pairs others))))

module _ {F : Type 0} where
  abbrev others_of : List (OverlapEdge F) → Str → List Str
  others_of edges a =
      map (λ e. if same e.slice_a a then e.slice_b else e.slice_a)
        (filter (λ e. same e.slice_a a || same e.slice_b a) edges)

  has-others_of :
      (edges : List (OverlapEdge F)) (a b : Str)
      → has (others_of edges a) b ≡ has (others_of edges b) a
  has-others_of [] a b = refl
  has-others_of (e ∷ edges) a b =
      let o : Ord Str = list_ord in
      let x = e.slice_a in
      let y = e.slice_b in
      ground (
        arith,
        has-others_of edges a b,
        o.cmp_reverse x a,
        o.cmp_reverse x b,
        o.cmp_reverse y a,
        o.cmp_reverse y b,
        o.eq_of_cmp x a,
        o.eq_of_cmp x b,
        o.eq_of_cmp y a,
        o.eq_of_cmp y b,
      )

  -- A slice is a neighbour of its neighbours.
  pub has-neighbors_comm :
      (g : OverlapGraph F) (a b : Str) → has (neighbors g a) b ≡ has (neighbors g b) a
  unfolding neighbors edges_for_slice
  has-neighbors_comm g a b = has-others_of g.edges a b
