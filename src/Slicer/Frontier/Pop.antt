-- ===== src/Slicer/Frontier/Pop.antt =====
-- What `pop` takes and leaves.
use Prim.Native.Nat.Ordering.{gt}
use mathlib.Core.List.Permᴰ
use admissibility_kernel.Base.{◌≡◌, refl, subst, List, [], ◌∷◌, some, All, Permᴰ, arith}
use admissibility_kernel.Crates.{Floats}
use admissibility_kernel.Policy.Scoring.{ExpansionCandidate, cmp}
use admissibility_kernel.Slicer.Frontier.{pick, pop}

module _ {F : Type 0} (fl : Floats F) where
  module _ (P : ExpansionCandidate F → Type 0) where
    pick-All :
        (best : ExpansionCandidate F) (cs : List (ExpansionCandidate F))
        → P best
        → All P cs
        → P (pick fl best cs).0 × All P (pick fl best cs).1
    unfolding pick
    pick-All best [] p ps = (p, tt)
    pick-All best (c ∷ cs) p ps = ground (arith, pick-All best cs, pick-All c cs)

    pub pop-All :
        (cs : List (ExpansionCandidate F)) (c : ExpansionCandidate F)
        (rest : List (ExpansionCandidate F))
        → All P cs
        → pop fl cs ≡ some (c, rest)
        → P c × All P rest
    unfolding pop
    pop-All [] c rest ps h = cc
    pop-All (b ∷ cs) c rest ps h = ground (arith, pick-All b cs)

  pick-perm :
      (best : ExpansionCandidate F) (cs : List (ExpansionCandidate F))
      → Permᴰ (best ∷ cs) ((pick fl best cs).0 ∷ (pick fl best cs).1)
  unfolding pick
  pick-perm best [] = Permᴰ.refl _
  pick-perm best (c ∷ cs) =
      elim (cmp fl c best)
        as (λ o.
          let r : ExpansionCandidate F × List (ExpansionCandidate F) = elim o [
            | gt ↦ ((pick fl c cs).0, best ∷ (pick fl c cs).1)
            | _ ↦ ((pick fl best cs).0, c ∷ (pick fl best cs).1)
          ] in
          Permᴰ (best ∷ c ∷ cs) (r.0 ∷ r.1)) [
            | gt ↦ Permᴰ.trans (Permᴰ.cons refl (pick-perm c cs)) (Permᴰ.swap refl refl)
            | _ ↦
                Permᴰ.trans (Permᴰ.swap refl refl)
                  (Permᴰ.trans (Permᴰ.cons refl (pick-perm best cs)) (Permᴰ.swap refl refl))
          ]

  -- The frontier loses the popped candidate and nothing else.
  pub pop-perm :
      (cs : List (ExpansionCandidate F)) (c : ExpansionCandidate F)
      (rest : List (ExpansionCandidate F))
      → pop fl cs ≡ some (c, rest)
      → Permᴰ cs (c ∷ rest)
  unfolding pop
  pop-perm [] c rest h = cc
  pop-perm (b ∷ cs) c rest h =
      let e : pick fl b cs ≡ (c, rest) = ground arith in
      subst (λ (q : ExpansionCandidate F × List (ExpansionCandidate F)). Permᴰ (b ∷ cs) (q.0 ∷ q.1))
        e (pick-perm b cs)
