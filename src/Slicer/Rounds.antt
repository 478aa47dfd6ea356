-- ===== src/Slicer/Rounds.antt =====
-- The ways in which a round of the loop of src/slicer.rs goes, and what the loop keeps.
use admissibility_kernel.Base.{
  ℕ, zero, suc, ◌<◌, ◌≡◌, refl, ◌⊎◌, inl, inr, List, [], ◌∷◌, none, some, ok, err, ltb, Bool-cases,
  Result-cases, arith,
}
use admissibility_kernel.Crates.{Floats}
use admissibility_kernel.Policy.V1.{SlicePolicyV1}
use admissibility_kernel.Store.{GraphStore}
use admissibility_kernel.Base.{◌++◌, ◌≤◌, length, leb, Option-cases}
use admissibility_kernel.Policy.Scoring.{ExpansionCandidate}
use admissibility_kernel.Slicer.Frontier.{pop}
use admissibility_kernel.Slicer.{
  SlicerError, Round, finished, continues, failed, next_distance, take_candidate, round,
  expand_loop, Expansion, expand,
}

pub Round-cases :
    {F : Type 0} (r : Round F)
    → ((s : Expansion F) × (r ≡ finished s))
      ⊎ (((s : Expansion F) × (r ≡ continues s)) ⊎ ((e : SlicerError) × (r ≡ failed e)))
Round-cases (finished s) = inl (s, refl)
Round-cases (continues s) = inr (inl (s, refl))
Round-cases (failed e) = inr (inr (e, refl))

module _ {F E : Type 0} (fl : Floats F) (store : GraphStore F E) (policy : SlicePolicyV1 F) where
  -- The turn of a candidate is selected.
  abbrev pub choose : Expansion F → ExpansionCandidate F → List (ExpansionCandidate F) → Expansion F
  choose s c rest = record s { selected = s.selected ++ c.turn ∷ []; frontier = rest }

  -- The ways in which a round goes.
  pub data RoundView (s : Expansion F) (r : Round F) : Type 0 where
    drained : pop fl s.frontier ≡ none → r ≡ finished s → RoundView s r
    full :
        (c : ExpansionCandidate F) (rest : List (ExpansionCandidate F))
        → pop fl s.frontier ≡ some (c, rest)
        → policy.max_nodes ≤ length s.selected
        → r ≡ finished (record s { frontier = rest })
        → RoundView s r
    far :
        (c : ExpansionCandidate F) (rest : List (ExpansionCandidate F))
        → pop fl s.frontier ≡ some (c, rest)
        → policy.max_radius < c.distance
        → r ≡ continues (record s { frontier = rest })
        → RoundView s r
    leaf :
        (c : ExpansionCandidate F) (rest : List (ExpansionCandidate F))
        → pop fl s.frontier ≡ some (c, rest)
        → length s.selected < policy.max_nodes
        → c.distance ≤ policy.max_radius
        → policy.max_radius < next_distance c.distance
        → r ≡ continues (choose s c rest)
        → RoundView s r
    grown :
        (c : ExpansionCandidate F) (rest : List (ExpansionCandidate F)) (t : Expansion F)
        → pop fl s.frontier ≡ some (c, rest)
        → length s.selected < policy.max_nodes
        → c.distance ≤ policy.max_radius
        → next_distance c.distance ≤ policy.max_radius
        → expand fl store policy c.distance (next_distance c.distance) c.turn.id (choose s c rest)
          ≡ ok t
        → r ≡ continues t
        → RoundView s r
    broken :
        (c : ExpansionCandidate F) (rest : List (ExpansionCandidate F)) (e : SlicerError)
        → pop fl s.frontier ≡ some (c, rest)
        → expand fl store policy c.distance (next_distance c.distance) c.turn.id (choose s c rest)
          ≡ err e
        → r ≡ failed e
        → RoundView s r

  pub round_view : (s : Expansion F) → RoundView s (round fl store policy s)
  unfolding round take_candidate
  round_view s = elim (Option-cases (pop fl s.frontier)) [
    | inl empty ↦ drained empty (ground (arith, empty))
    | inr ((c, rest), popped) ↦ elim (Bool-cases (leb policy.max_nodes (length s.selected))) [
      | inl no_room ↦ full c rest popped (ground arith) (ground (arith, popped))
      | inr room ↦ elim (Bool-cases (ltb policy.max_radius c.distance)) [
        | inl beyond ↦ far c rest popped (ground arith) (ground (arith, popped))
        | inr within ↦ elim (Bool-cases (ltb policy.max_radius (next_distance c.distance))) [
          | inl last ↦
              leaf c rest popped (ground arith) (ground arith) (ground arith)
                (ground (arith, popped))
          | inr more ↦
              elim (Result-cases (
                expand fl store policy c.distance (next_distance c.distance) c.turn.id
                  (choose s c rest))) [
                    | inl (t, grew) ↦
                        grown c rest t popped (ground arith) (ground arith) (ground arith) grew
                          (ground (arith, popped, grew))
                    | inr (e, bad) ↦ broken c rest e popped bad (ground (arith, popped, bad))
                  ]
        ]
      ]
    ]
  ]

  -- Of a loop that ends with success: what every round keeps holds at the last one.
  pub loop_rule :
      (P : Expansion F → Type 0)
      → ((s t : Expansion F) → P s → round fl store policy s ≡ continues t → P t)
      → (fuel : ℕ) (s t : Expansion F) → P s
      → expand_loop fl store policy fuel s ≡ some (ok t)
      → (u : Expansion F) × P u × (round fl store policy u ≡ finished t)
  unfolding expand_loop
  loop_rule P keep zero s t p h = cc
  loop_rule P keep (suc fuel) s t p h = elim (Round-cases (round fl store policy s)) [
    | inl (u, e) ↦ (s, p, ground (arith, e))
    | inr (inl (u, e)) ↦ loop_rule P keep fuel u t (keep s u p e) (ground (arith, e))
    | inr (inr (x, e)) ↦ absurd (ground (arith, e))
  ]
