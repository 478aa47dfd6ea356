-- ===== src/Slicer/Ends.antt =====
-- The loop of src/slicer.rs ends within `max_nodes + 1` rounds: no candidate lies beyond the radius,
-- so each round that goes on selects a turn.
use admissibility_kernel.Base.{
  ℕ, zero, suc, ◌+◌, ◌≤◌, ◌<◌, ◌≡◌, refl, ap, inl, inr, List, [], ◌∷◌, ◌++◌, none, some, Result, ok,
  err, All, length, length-append, Option-cases, Result-cases, arith,
}
use admissibility_kernel.Base.Int.{ℤ}
use admissibility_kernel.Crates.{Floats, Crypto}
use admissibility_kernel.Types.Turn.{TurnId, TurnSnapshot}
use admissibility_kernel.Types.Admissible.{AdmissibleEvidenceBundle}
use admissibility_kernel.Policy.V1.{SlicePolicyV1}
use admissibility_kernel.Policy.Scoring
use admissibility_kernel.Policy.Scoring.{ExpansionCandidate}
use admissibility_kernel.Store.{GraphStore}
use admissibility_kernel.Base.{Bytes}
use admissibility_kernel.Slicer.Rounds.{
  Round-cases, round_view, choose, drained, full, far, leaf, grown, broken,
}
use admissibility_kernel.Slicer.{
  SlicerError, anchor_not_found, seal, Expansion, continues, from_store, push_turn, next_distance,
  round, expand_loop, start, select_turns, slice,
}
use admissibility_kernel.Slicer.Frontier.Pop.{pop-All}
use admissibility_kernel.Slicer.Rules.{expand_rule, Pushes}

module _ {F E : Type 0} (fl : Floats F) (store : GraphStore F E) (policy : SlicePolicyV1 F) where
  abbrev IsNear : ExpansionCandidate F → Type 0
  IsNear c = c.distance ≤ policy.max_radius

  pub record Near (selected : List (TurnSnapshot F)) (s : Expansion F) : Type 0 where
    pub near : All IsNear s.frontier
    pub same : s.selected ≡ selected

  push-Near :
      (chosen : List (TurnSnapshot F)) (d : ℕ) (id : TurnId)
      → d ≤ policy.max_radius
      → Pushes fl store policy (Near chosen) d id
  unfolding push_turn Scoring.new
  push-Near chosen d id h s none _ _ p = record { near = p.near; same = p.same }
  push-Near chosen d id h s (some turn) _ _ p = record { near = (h, p.near); same = p.same }

  round-Near :
      (s t : Expansion F)
      → All IsNear s.frontier
      → round fl store policy s ≡ continues t
      → All IsNear t.frontier
        × (length t.selected ≡ length s.selected + 1)
        × (length s.selected < policy.max_nodes)
  round-Near s t near h = elim (round_view fl store policy s) [
    | drained empty e ↦ absurd (ground (arith, e))
    | full c rest popped no_room e ↦ absurd (ground (arith, e))
    | far c rest popped beyond e ↦
        let (within, _) = pop-All fl IsNear s.frontier c rest near popped in absurd (omega arith)
    | leaf c rest popped room within last_step e ↦
        let (_, near_rest) = pop-All fl IsNear s.frontier c rest near popped in
        ground (arith, e, near_rest, length-append s.selected (c.turn ∷ []))
    | grown c rest u popped room within next grew e ↦
        let (_, near_rest) = pop-All fl IsNear s.frontier c rest near popped in
        let chosen = s.selected ++ c.turn ∷ [] in
        let after =
          expand_rule fl store policy (Near chosen) c.distance (next_distance c.distance) c.turn.id
            (choose fl store policy s c rest) u
            (λ v _. push-Near chosen (next_distance c.distance) v next)
            (λ v _. push-Near chosen c.distance v within) grew
            (record { near = near_rest; same = refl }) in
        ground (arith, e, after.near, ap length after.same, length-append s.selected (c.turn ∷ []))
    | broken c rest x popped bad e ↦ absurd (ground (arith, e))
  ]

  -- Fuel above the number of turns that may still be selected is enough.
  loop_ends :
      (fuel : ℕ) (s : Expansion F)
      → All IsNear s.frontier
      → policy.max_nodes < fuel + length s.selected
      → length s.selected ≤ policy.max_nodes
      → (r : Result SlicerError (Expansion F)) × (expand_loop fl store policy fuel s ≡ some r)
  unfolding expand_loop
  loop_ends zero s near enough room = absurd (omega arith)
  loop_ends (suc fuel) s near enough room = elim (Round-cases (round fl store policy s)) [
    | inl (t, e) ↦ (ok t, ground (arith, e))
    | inr (inl (t, e)) ↦
        let (near', grew, below) = round-Near s t near e in
        let (r, ends) = loop_ends fuel t near' (omega arith) (omega arith) in
        (r, ground (arith, e, ends))
    | inr (inr (x, e)) ↦ (err x, ground (arith, e))
  ]

  pub select_turns_ends :
      (anchor : TurnSnapshot F) (anchor_id : TurnId)
      → (r : Result SlicerError (Expansion F)) × (select_turns fl store policy anchor anchor_id
          ≡ some r)
  unfolding select_turns Scoring.new
  select_turns_ends anchor anchor_id =
      loop_ends (policy.max_nodes + 1) (start fl store policy anchor anchor_id) (omega arith, tt)
        (omega arith) (omega arith)

module _ {F E : Type 0} (fl : Floats F) (cr : Crypto F) (store : GraphStore F E)
    (policy : SlicePolicyV1 F) (secret : Bytes) (now : ℤ) where
  -- `slice` returns, with a bundle or an error, whatever the store answers: its loop ends within
  -- `max_nodes + 1` rounds.
  pub slice_returns :
      (anchor_id : TurnId)
      → (r : Result SlicerError (AdmissibleEvidenceBundle F)) × (slice fl cr store policy secret now
            anchor_id
          ≡ some r)
  unfolding slice
  slice_returns anchor_id = elim (Result-cases (from_store store (store.get_turn anchor_id))) [
    | inr (e, bad) ↦ (err e, ground (arith, bad))
    | inl (found, good) ↦ elim (Option-cases found) [
      | inl missing ↦ (err (anchor_not_found anchor_id), ground (arith, good, missing))
      | inr (anchor, there) ↦
          let (r, ends) = select_turns_ends fl store policy anchor anchor_id in
          elim (Result-cases r) [
            | inl (s, fine) ↦ (
              seal fl cr store policy secret now anchor_id s.selected,
              ground (arith, good, there, ends, fine),
            )
            | inr (e, bad) ↦ (err e, ground (arith, good, there, ends, bad))
          ]
    ]
  ]
