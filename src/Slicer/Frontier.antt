-- ===== src/Slicer/Frontier.antt =====
-- The frontier of src/slicer.rs: a `BinaryHeap` of candidates as the list of its members.
pub mod Pop
pub mod Greatest
use Prim.Native.Nat.Ordering.{gt}
use admissibility_kernel.Base.{List, [], ◌∷◌, Option, none, some}
use admissibility_kernel.Crates.{Floats}
use admissibility_kernel.Policy.Scoring.{ExpansionCandidate, cmp}

module _ {F : Type 0} (fl : Floats F) where
  -- The greatest of `best` and the others, and what is left.
  unfoldable pub pick :
      ExpansionCandidate F
      → List (ExpansionCandidate F)
      → ExpansionCandidate F × List (ExpansionCandidate F)
  pick best [] = (best, [])
  pick best (c ∷ cs) =
      let keep = pick best cs in
      let replace = pick c cs in
      elim (cmp fl c best) [ gt ↦ (replace.0, best ∷ replace.1) | _ ↦ (keep.0, c ∷ keep.1) ]

  -- `BinaryHeap::pop`
  unfoldable pub pop :
      List (ExpansionCandidate F) → Option (ExpansionCandidate F × List (ExpansionCandidate F))
  unfolding pick
  pop [] = none
  pop (c ∷ cs) = some (pick c cs)
