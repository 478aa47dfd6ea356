-- ===== src/Atlas/Influence/Bridges.antt =====
-- What `compute_influence` and `extract_bridges` promise of the slices that they are given.
use admissibility_kernel.Base.{
  ◌%◌, ◌^◌, ◌≤◌, ◌≡◌, refl, ap, sym, ◌∙◌, inl, inr, List, [], ◌∷◌, map, true, false, Option, none,
  some, Str, All, length, filter, ltb, arith, Option-cases, Bool-cases,
}
use admissibility_kernel.Base.Order.{Ord, nat_ord, list_ord}
use admissibility_kernel.Base.Set.{has, Separate}
use admissibility_kernel.Base.Tree.{get}
use admissibility_kernel.Base.Tree.Same.{All-get}
use admissibility_kernel.Crates.{Floats, Crypto}
use admissibility_kernel.Types.Phase.{Phase}
use admissibility_kernel.Types.Turn.{TurnSnapshot}
use admissibility_kernel.Types.Slice.{SliceExport, turn_ids}
use admissibility_kernel.Atlas.Influence.{
  TurnInfluence, TurnData, BridgeTurn, phases_of, new_scores, get_influence, to_influence,
  count_slices, compute_influence, bridge_turns, extract_bridges,
}
use admissibility_kernel.Atlas.Influence.Counting.{
  listings, entry_of, get-count_slices, count_slices-IsOrdered,
}
use admissibility_kernel.Atlas.Influence.Phases.{
  has_phase, has_phase-phases_of, is_cross_phase-phases_of, phases_of-le,
}
use admissibility_kernel.Atlas.Influence.Scores.{
  appearances, phase_appearances, IsScore, entry-IsScore, entry-there, get_influence-entry,
  sort_by-ordered,
}

module _ {F : Type 0} (fl : Floats F) (cr : Crypto F) (slices : List (SliceExport F)) where
  -- What the scores answer for a turn.
  abbrev pub IsAnswer : Str → Option (TurnInfluence F) → Type 0
  IsAnswer id none = appearances cr id slices ≡ 0
  IsAnswer id (some t) = IsScore cr slices id t

  -- A turn that the slices do not list has no score. The score of another counts its listings, and
  -- those in slices of each phase, modulo 2^32; the counts of the phases add up to that of the
  -- slices modulo 2^32.
  pub get_influence_lem :
      (id : Str) → IsAnswer id (get_influence (compute_influence fl cr slices) id)
  get_influence_lem id = elim (Option-cases (entry_of cr id slices none)) [
    | inl e ↦ rw (get_influence-entry fl cr slices id, e) (entry-there cr id slices none e).0
    | inr (x, e) ↦
        rw (get_influence-entry fl cr slices id, e)
          (entry-IsScore cr fl slices id x (length slices) e)
  ]

  listings-absent :
      (id : Str) (turns : List (TurnSnapshot F))
      → has (map cr.uuid_string (turn_ids turns)) id ≡ false
      → listings cr id turns ≡ 0
  listings-absent id [] h = refl
  listings-absent id (t ∷ turns) h = ground (arith, listings-absent id turns)

  listings-le :
      (id : Str) (turns : List (TurnSnapshot F))
      → Separate (map cr.uuid_string (turn_ids turns))
      → listings cr id turns ≤ 1
  listings-le id [] h = omega arith
  listings-le id (t ∷ turns) h =
      let o : Ord Str = list_ord in
      ground (
        arith,
        listings-le id turns,
        listings-absent id turns,
        o.eq_of_cmp id (cr.uuid_string t.id),
      )

  -- No slice lists a turn twice.
  abbrev pub ListOnce : List (SliceExport F) → Type 0
  ListOnce = All (λ s. Separate (map cr.uuid_string (turn_ids s.turns)))

  appearances-le :
      (id : Str) (some_slices : List (SliceExport F))
      → ListOnce some_slices
      → appearances cr id some_slices ≤ length some_slices
  appearances-le id [] h = omega arith
  appearances-le id (s ∷ rest) h =
      omega (arith, appearances-le id rest h.1, listings-le id s.turns h.0)

  -- If no slice lists a turn twice, a turn counts for at most as many slices as there are.
  pub slice_count-le :
      (id : Str) (t : TurnInfluence F)
      → ListOnce slices
      → get_influence (compute_influence fl cr slices) id ≡ some t
      → t.slice_count ≤ length slices
  slice_count-le id t h found =
      let score : IsScore cr slices id t = rw found at (get_influence_lem id) in
      omega (arith, score.slices_counted, appearances-le id slices h)

  All-scores :
      (m : TurnData)
      → All (λ x. get x.0 (count_slices cr slices []) ≡ some x.1) m
      → All (λ t. IsScore cr slices t.turn_id t) (map (to_influence fl (length slices)) m)
  unfolding to_influence get
  All-scores [] h = tt
  All-scores ((id, e) ∷ m) h = (
    entry-IsScore cr fl slices id e (length slices)
        (sym (get-count_slices cr id slices [] tt) ∙ h.0),
    All-scores m h.1,
  )

  -- What is said of a bridge.
  pub record IsBridge (b : BridgeTurn) : Type 0 where
    pub several : 2 ≤ length b.bridged_phases
    pub at_most : length b.bridged_phases ≤ 5
    pub bridged :
        (p : Phase)
        → has_phase b.bridged_phases p ≡ ltb 0 (phase_appearances cr p b.turn_id slices % 2 ^ 32)
    pub counted : b.total_appearances ≡ appearances cr b.turn_id slices % 2 ^ 32

  to_bridge : TurnInfluence F → BridgeTurn
  to_bridge t = record {
    turn_id = t.turn_id;
    bridged_phases = phases_of t.phase_distribution;
    total_appearances = t.slice_count;
  }

  score-IsBridge :
      (t : TurnInfluence F)
      → IsScore cr slices t.turn_id t
      → t.is_bridge ≡ true
      → IsBridge (to_bridge t)
  unfolding to_bridge
  score-IsBridge t s h = record {
    several = ground (arith, s.bridge, is_cross_phase-phases_of t.phase_distribution);
    at_most = phases_of-le t.phase_distribution;
    bridged = λ p. has_phase-phases_of t.phase_distribution p ∙ ap (ltb 0) (s.phases_counted p);
    counted = s.slices_counted;
  }

  All-bridges :
      (scores : List (TurnInfluence F))
      → All (λ t. IsScore cr slices t.turn_id t) scores
      → All IsBridge (map to_bridge (filter (λ t. t.is_bridge) scores))
  unfolding to_bridge
  All-bridges [] h = tt
  All-bridges (t ∷ scores) h = elim (Bool-cases t.is_bridge) [
    | inl yes_bridge ↦ rw yes_bridge (score-IsBridge t h.0 yes_bridge, All-bridges scores h.1)
    | inr no_bridge ↦ rw no_bridge (All-bridges scores h.1)
  ]

  -- Every bridge has two to five phases. These are the phases of the anchors of the slices that list
  -- its turn, and its appearances are the listings of its turn, all counted modulo 2^32.
  pub extract_bridges_lem : All IsBridge (extract_bridges (compute_influence fl cr slices))
  unfolding extract_bridges bridge_turns compute_influence new_scores to_bridge
  extract_bridges_lem =
      let m = count_slices cr slices [] in
      let ordered = count_slices-IsOrdered cr slices [] tt in
      rw (sort_by-ordered fl (length slices) m ordered)
        (All-bridges (map (to_influence fl (length slices)) m) (All-scores m (All-get m ordered)))
