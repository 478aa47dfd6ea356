-- ===== src/Samples/Runs.antt =====
-- The theorems on the slicer and its store, at the sample graph.
use mathlib.Core.List.{Perm}
use admissibility_kernel.Base.{
  ℕ, ◌≤◌, ◌<◌, ◌≡◌, refl, ◌⊎◌, [], ◌∷◌, true, none, some, Result, ok, err, All, length, contains,
  filter, Distinct, Permᴰ, arith,
}
use admissibility_kernel.Types.Turn.{TurnId}
use admissibility_kernel.Types.Role.{user}
use admissibility_kernel.Types.Phase.{planning}
use admissibility_kernel.Types.Admissible.{AdmissibleEvidenceBundle, bundle_turn_ids}
use admissibility_kernel.Policy.Scoring.{ExpansionCandidate, cmp, tie_break}
use admissibility_kernel.Store.Memory.{
  InMemoryError, get_turn, get_children, get_parents, get_edges, get_siblings, add_turn, add_edge,
}
use admissibility_kernel.Store.Memory
use admissibility_kernel.Store.Memory.Mirror.{WellFormed, Built-WellFormed}
use admissibility_kernel.Store.Memory.Answers.{graph_store-IsHonest, is_inside}
use admissibility_kernel.Store.Memory.Answers.Siblings.{IsSibling, get_siblings_lem}
use admissibility_kernel.Base.Tree.{get, insert}
use admissibility_kernel.Slicer.{SlicerError, anchor_not_found, slice, from_store}
use admissibility_kernel.Slicer.Frontier.{pop, pick}
use admissibility_kernel.Slicer.Frontier.Greatest.{IsBehind, pop_greatest, pop-perm_eq}
use admissibility_kernel.Slicer.Invariant.{Reached}
use admissibility_kernel.Slicer.Bundle.{slice_sound, slice-contains_anchor}
use admissibility_kernel.Slicer.Rules.{Linked}
use admissibility_kernel.Slicer.Complete.{slice_complete, anchored, joined}
use admissibility_kernel.Slicer.Ends.{slice_returns}
use admissibility_kernel.Slicer.Errors.{slice_errors, IsStoreError}
use admissibility_kernel.Slicer.InMemory.{slice_edges}
use admissibility_kernel.Samples.{floats, float_laws, crypto, crypto_laws}
use admissibility_kernel.Samples.Graph.{
  turn, turn_four, graph, graph-Built, policy, secret, store, now, bundle, run-ok, turn_one,
  wide_policy, wide_bundle, wide-ok, wide-few, parents_three, turn_one_there,
}

slice_sound_example :
    (length (bundle_turn_ids bundle) ≤ 3)
    × Distinct (bundle_turn_ids bundle)
    × ((v : TurnId) → contains (bundle_turn_ids bundle) v ≡ true → Reached floats store policy 2 v)
slice_sound_example =
    slice_sound floats crypto crypto_laws store policy secret now 2 bundle run-ok
      (graph_store-IsHonest crypto floats graph-Built) (omega arith)

slice-contains_anchor_example : contains (bundle_turn_ids bundle) 2 ≡ true
slice-contains_anchor_example =
    slice-contains_anchor floats crypto crypto_laws store policy secret now 2 bundle run-ok
      (graph_store-IsHonest crypto floats graph-Built) (omega arith)

slice_returns_example :
    (r : Result SlicerError (AdmissibleEvidenceBundle ℕ)) × (slice floats crypto store policy secret
        now 1
      ≡ some r)
slice_returns_example = slice_returns floats crypto store policy secret now 1

-- No turn 9.
missing_run : slice floats crypto store policy secret now 9 ≡ some (err (anchor_not_found 9))
unfolding slice from_store get_turn get insert add_turn add_edge Memory.new
missing_run = refl

slice_errors_example :
    ((anchor_not_found 9 ≡ anchor_not_found 9) × (store.get_turn 9 ≡ ok none))
    ⊎ IsStoreError store (anchor_not_found 9)
slice_errors_example =
    slice_errors floats crypto crypto_laws store policy secret now 9 (anchor_not_found 9)
      missing_run

four_there : get_turn graph 4 ≡ some turn_four
unfolding get_turn get insert add_turn add_edge Memory.new
four_there = refl

slice_edges_example :
    Permᴰ bundle.slice.edges (filter (is_inside (bundle_turn_ids bundle)) graph.edges)
slice_edges_example = slice_edges floats crypto crypto_laws graph policy secret now 2 bundle run-ok

-- Three candidates, the first two with one priority.
abbrev candidate : TurnId → ℕ → ℕ → ExpansionCandidate ℕ
candidate id distance priority = record {
  turn = turn id user planning 500;
  distance = distance;
  priority = priority;
}

abbrev near : ExpansionCandidate ℕ
near = candidate 1 1 700

abbrev far : ExpansionCandidate ℕ
far = candidate 2 2 700

abbrev last : ExpansionCandidate ℕ
last = candidate 3 0 200

near_first : pop floats (far ∷ near ∷ last ∷ []) ≡ some (near, far ∷ last ∷ [])
unfolding pop pick cmp tie_break
near_first = refl

near_again : pop floats (near ∷ last ∷ far ∷ []) ≡ some (near, last ∷ far ∷ [])
unfolding pop pick cmp tie_break
near_again = refl

pop_greatest_example :
    Permᴰ (far ∷ near ∷ last ∷ []) (near ∷ far ∷ last ∷ [])
    × All (IsBehind floats float_laws near) (far ∷ last ∷ [])
pop_greatest_example =
    pop_greatest floats float_laws (far ∷ near ∷ last ∷ []) near (far ∷ last ∷ [])
      ((700, refl), ((700, refl), ((200, refl), tt))) near_first

pop-perm_eq_example : (near ≡ near) × Perm (far ∷ last ∷ []) (last ∷ far ∷ [])
pop-perm_eq_example =
    pop-perm_eq floats float_laws (far ∷ near ∷ last ∷ []) (near ∷ last ∷ far ∷ [])
      (far ∷ last ∷ []) (last ∷ far ∷ []) near near ((700, refl), ((700, refl), ((200, refl), tt)))
      ((700, refl), ((200, refl), ((700, refl), tt))) (refl, (refl, (refl, tt)))
      (Permᴰ.trans (Permᴰ.swap refl refl) (Permᴰ.cons refl (Permᴰ.swap refl refl))) near_first
      near_again

Built-WellFormed_example : WellFormed graph
Built-WellFormed_example = Built-WellFormed graph-Built

get_siblings_lem_example :
    (length (get_siblings floats graph 2 2) ≤ 2)
    × Distinct (get_siblings floats graph 2 2)
    × ((v : TurnId) → contains (get_siblings floats graph 2 2) v ≡ true → IsSibling graph 2 v)
    × (length (get_siblings floats graph 2 2) < 2
        → (v : TurnId) → IsSibling graph 2 v
        → contains (get_siblings floats graph 2 2) v ≡ true)
get_siblings_lem_example = get_siblings_lem floats graph-Built 2 2

-- Turn 1 is the parent of turn 3.
slice_complete_example : contains (bundle_turn_ids wide_bundle) 1 ≡ true
slice_complete_example =
    slice_complete floats crypto crypto_laws store wide_policy secret now 3 wide_bundle wide-ok
      (graph_store-IsHonest crypto floats graph-Built) (omega arith) (omega arith)
      (ground (arith, wide-few)) 1
      (joined turn_one (anchored refl) (Linked.parent (1 ∷ []) parents_three refl) turn_one_there)
