-- ===== src/Slicer/Anchor.antt =====
-- The first round of the loop of src/slicer.rs selects the anchor, and no round drops a turn.
use admissibility_kernel.Base.{
  ℕ, ◌+◌, ◌<◌, ◌≡◌, refl, sym, ap, subst, ◌∙◌, ◌⊎◌, inl, inr, List, [], ◌∷◌, ◌++◌, none, some, true,
  ◌||◌, ok, length, contains, contains-append, arith,
}
use mathlib.Core.List.{map-append}
use admissibility_kernel.Crates.{Floats}
use admissibility_kernel.Types.Turn.{TurnId, TurnSnapshot}
use admissibility_kernel.Types.Slice.{turn_ids}
use admissibility_kernel.Policy.V1.{SlicePolicyV1}
use admissibility_kernel.Policy.Scoring
use admissibility_kernel.Policy.Scoring.{ExpansionCandidate}
use admissibility_kernel.Store.{GraphStore}
use admissibility_kernel.Slicer.{
  Expansion, continues, push_turn, next_distance, expand, round, start, select_turns,
}
use admissibility_kernel.Slicer.Frontier.{pop}
use admissibility_kernel.Slicer.Rules.{Pushes, expand_rule}
use admissibility_kernel.Slicer.Rounds.{
  choose, round_view, loop_rule, drained, full, far, leaf, grown, broken,
}

module _ {F E : Type 0} (fl : Floats F) (store : GraphStore F E) (policy : SlicePolicyV1 F) where
  push-selected :
      (chosen : List (TurnSnapshot F)) (d : ℕ) (v : TurnId)
      → Pushes fl store policy (λ u. u.selected ≡ chosen) d v
  unfolding push_turn
  push-selected chosen d v s none _ _ p = p
  push-selected chosen d v s (some turn) _ _ p = p

  -- Neighbours are only queued.
  pub expand-selected :
      (d next : ℕ) (id : TurnId) (s t : Expansion F)
      → expand fl store policy d next id s ≡ ok t
      → t.selected ≡ s.selected
  expand-selected d next id s t h =
      expand_rule fl store policy (λ u. u.selected ≡ s.selected) d next id s t
        (λ v _. push-selected s.selected next v) (λ v _. push-selected s.selected d v) h refl

  module _ (anchor : TurnSnapshot F) (anchor_id : TurnId) (same : anchor.id ≡ anchor_id) where
    abbrev HasAnchor : Expansion F → Type 0
    HasAnchor s =
        (s ≡ start fl store policy anchor anchor_id)
        ⊎ (contains (turn_ids s.selected) anchor_id ≡ true)

    contains-choose :
        (s : Expansion F) (c : ExpansionCandidate F) (v : TurnId)
        → contains (turn_ids (s.selected ++ c.turn ∷ [])) v
          ≡ contains (turn_ids s.selected) v || contains (c.turn.id ∷ []) v
    contains-choose s c v =
        ap (λ l. contains l v) (map-append (λ t. t.id) s.selected (c.turn ∷ []))
        ∙ contains-append (turn_ids s.selected) (c.turn.id ∷ []) v

    -- From the start the anchor is popped.
    choose-HasAnchor :
        (s : Expansion F) (c : ExpansionCandidate F) (rest : List (ExpansionCandidate F))
        → pop fl s.frontier ≡ some (c, rest)
        → HasAnchor s
        → contains (turn_ids (s.selected ++ c.turn ∷ [])) anchor_id ≡ true
    unfolding pop Scoring.new
    choose-HasAnchor s c rest popped (inr old) = ground (arith, contains-choose s c anchor_id, old)
    choose-HasAnchor s c rest popped (inl first) =
        let at_start = subst (λ u. pop fl u.frontier ≡ some (c, rest)) first popped in
        let e : c.turn.id ≡ anchor_id = ground (arith, at_start, same) in
        ground (arith, contains-choose s c anchor_id, e)

    -- At the start the frontier holds the anchor at distance 0, and there is room.
    start-pops :
        (s : Expansion F)
        → s ≡ start fl store policy anchor anchor_id
        → (c : ExpansionCandidate F) × (pop fl s.frontier ≡ some (c, []))
          × (c.distance ≡ 0)
          × (length s.selected ≡ 0)
    unfolding pop Scoring.new
    start-pops s first = (
      Scoring.new fl anchor 0 policy,
      ap (λ u. pop fl u.frontier) first,
      refl,
      ap (λ u. length u.selected) first,
    )

    already-selected :
        (s : Expansion F)
        → HasAnchor s
        → (s ≡ start fl store policy anchor anchor_id → ⊥)
        → contains (turn_ids s.selected) anchor_id ≡ true
    already-selected s (inl first) later = absurd (later first)
    already-selected s (inr old) later = old

    round-HasAnchor :
        (s t : Expansion F) → HasAnchor s → round fl store policy s ≡ continues t → HasAnchor t
    round-HasAnchor s t has h = elim (round_view fl store policy s) [
      | drained empty e ↦ absurd (ground (arith, e))
      | full c rest popped no_room e ↦ absurd (ground (arith, e))
      | far c rest popped beyond e ↦
          let selected =
            already-selected s has
              (λ first. let (d, popped', near, _) = start-pops s first in ground (arith, near)) in
          let t_is : record s { frontier = rest } ≡ t = ground (arith, e) in
          inr (subst (λ u. contains (turn_ids u.selected) anchor_id ≡ true) t_is selected)
      | leaf c rest popped room within last_step e ↦
          let t_is : choose fl store policy s c rest ≡ t = ground (arith, e) in
          inr (
            subst (λ u. contains (turn_ids u.selected) anchor_id ≡ true) t_is
              (choose-HasAnchor s c rest popped has))
      | grown c rest u popped room within next grew e ↦
          let t_is : u ≡ t = ground (arith, e) in
          inr (
            subst (λ l. contains (turn_ids l) anchor_id ≡ true)
              (sym (
                  expand-selected c.distance (next_distance c.distance) c.turn.id
                    (choose fl store policy s c rest) u grew)
                ∙ ap (λ x. x.selected) t_is)
              (choose-HasAnchor s c rest popped has))
      | broken c rest x popped bad e ↦ absurd (ground (arith, e))
    ]

    -- With room for one turn, the anchor is selected.
    pub select_turns-anchor :
        (t : Expansion F)
        → 0 < policy.max_nodes
        → select_turns fl store policy anchor anchor_id ≡ some (ok t)
        → contains (turn_ids t.selected) anchor_id ≡ true
    unfolding select_turns
    select_turns-anchor t room h =
        let (u, has, last) =
          loop_rule fl store policy HasAnchor round-HasAnchor (policy.max_nodes + 1)
            (start fl store policy anchor anchor_id) t (inl refl) h in
        elim (round_view fl store policy u) [
          | drained empty e ↦
              let selected =
                already-selected u has
                  (λ first. let (d, popped, _, _) = start-pops u first in ground (arith, popped)) in
              let t_is : u ≡ t = ground (arith, e) in
              subst (λ x. contains (turn_ids x.selected) anchor_id ≡ true) t_is selected
          | full c rest popped no_room e ↦
              let selected = already-selected u has (λ first.
                let (d, _, _, none_yet) = start-pops u first in omega (arith, none_yet)) in
              let t_is : record u { frontier = rest } ≡ t = ground (arith, e) in
              subst (λ x. contains (turn_ids x.selected) anchor_id ≡ true) t_is selected
          | far c rest popped beyond e ↦ absurd (ground (arith, e))
          | leaf c rest popped free within last_step e ↦ absurd (ground (arith, e))
          | grown c rest v popped free within next grew e ↦ absurd (ground (arith, e))
          | broken c rest x popped bad e ↦ absurd (ground (arith, e))
        ]
