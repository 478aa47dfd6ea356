-- ===== src/Slicer/Frontier/Greatest.antt =====
-- The order of `ExpansionCandidate` in src/policy/scoring.rs, and what the frontier yields by it.
use Prim.Native.Nat.Ordering.{lt, eq, gt}
use mathlib.Core.List.Permᴰ
use mathlib.Core.List.Perm
use mathlib.Core.List.{Perm}
use admissibility_kernel.Base.{
  ℕ, ◌≤◌, ◌<◌, ◌≡◌, ◌≢◌, refl, sym, subst, ◌⊎◌, ⊎_elim, List, [], ◌∷◌, map, Memᴰ, some, All,
  Distinct, Permᴰ, arith,
}
use admissibility_kernel.Base.Order.{reverse}
use mathlib.Core.List.Memᴰ
use admissibility_kernel.Base.Membership.{eq_of_Distinct}
use admissibility_kernel.Base.Sort.Unique.{Memᴰ-perm}
use admissibility_kernel.Crates.{Floats, FloatLaws, IsNumber}
use admissibility_kernel.Types.Turn.{TurnId}
use admissibility_kernel.Policy.Scoring.{ExpansionCandidate, cmp, tie_break}
use admissibility_kernel.Slicer.Frontier.{pick, pop}
use admissibility_kernel.Slicer.Frontier.Pop.{pop-perm, pop-All}

module _ {F : Type 0} (fl : Floats F) (laws : FloatLaws fl) where
  abbrev Cand : Type 0
  Cand = ExpansionCandidate F

  -- The priority is not a NaN.
  abbrev pub IsRanked : Cand → Type 0
  IsRanked c = IsNumber laws c.priority

  cmp_trans :
      (a b c : Cand)
      → IsRanked a
      → IsRanked b
      → IsRanked c
      → cmp fl a b ≢ gt
      → cmp fl b c ≢ gt
      → cmp fl a c ≢ gt
  unfolding cmp tie_break
  cmp_trans a b c (i, ha) (j, hb) (k, hc) h1 h2 h3 = ground (
    arith,
    laws.by_rank a.priority b.priority,
    laws.by_rank b.priority c.priority,
    laws.by_rank a.priority c.priority,
  )

  cmp_reverse : (a b : Cand) → IsRanked a → IsRanked b → cmp fl b a ≡ reverse (cmp fl a b)
  unfolding cmp tie_break
  cmp_reverse a b (i, ha) (j, hb) =
      ground (arith, laws.by_rank a.priority b.priority, laws.by_rank b.priority a.priority)

  -- Two candidates of which neither precedes the other are about one turn.
  same_turn :
      (a b : Cand)
      → IsRanked a
      → IsRanked b
      → cmp fl a b ≢ gt
      → cmp fl b a ≢ gt
      → a.turn.id ≡ b.turn.id
  unfolding cmp tie_break
  same_turn a b (i, ha) (j, hb) h k =
      ground (arith, laws.by_rank a.priority b.priority, laws.by_rank b.priority a.priority)

  abbrev Below : Cand → Cand → Type 0
  Below top d = cmp fl d top ≢ gt

  pick_top :
      (best : Cand) (cs : List Cand)
      → IsRanked best
      → All IsRanked cs
      → IsRanked (pick fl best cs).0
        × Below (pick fl best cs).0 best
        × All (Below (pick fl best cs).0) (pick fl best cs).1
  unfolding pick
  pick_top best [] r rs = (r, λ h. ground (arith, cmp_reverse best best r r), tt)
  pick_top best (c ∷ cs) r rs =
      let (kr, kb, ks) = pick_top best cs r rs.1 in
      let (rr, rb, rest) = pick_top c cs rs.0 rs.1 in
      let back = cmp_reverse c best rs.0 r in
      elim (cmp fl c best)
          as (λ o.
            let q : Cand × List Cand = elim o [
              | gt ↦ ((pick fl c cs).0, best ∷ (pick fl c cs).1)
              | _ ↦ ((pick fl best cs).0, c ∷ (pick fl best cs).1)
            ] in
            cmp fl c best ≡ o → IsRanked q.0 × Below q.0 best × All (Below q.0) q.1) [
              | gt ↦ λ e.
                  let up : Below (pick fl c cs).0 best =
                    cmp_trans best c (pick fl c cs).0 r rs.0 rr (λ h. ground (arith, back, e)) rb in
                  (rr, up, (up, rest))
              | lt ↦ λ e. (
                kr,
                kb,
                (cmp_trans c best (pick fl best cs).0 rs.0 r kr (λ h. ground (arith, e)) kb, ks),
              )
              | eq ↦ λ e. (
                kr,
                kb,
                (cmp_trans c best (pick fl best cs).0 rs.0 r kr (λ h. ground (arith, e)) kb, ks),
              )
            ]
        refl

  pop_top :
      (cs : List Cand) (c : Cand) (rest : List Cand)
      → All IsRanked cs
      → pop fl cs ≡ some (c, rest)
      → All (λ d. cmp fl d c ≢ gt) rest
  unfolding pop
  pop_top [] c rest rs h = cc
  pop_top (b ∷ cs) c rest rs h =
      let e : pick fl b cs ≡ (c, rest) = ground arith in
      let (_, _, below) = pick_top b cs rs.0 rs.1 in
      subst (λ (q : Cand × List Cand). All (Below q.0) q.1) e below

  -- `d` has the lower priority, or the same one and the larger distance, or the same of both and no
  -- larger an identifier.
  abbrev pub IsBehind : Cand → Cand → Type 0
  IsBehind c d =
      (i : ℕ) × (j : ℕ) × (laws.rank c.priority ≡ some i)
      × (laws.rank d.priority ≡ some j)
      × ((j < i)
          ⊎ ((j ≡ i)
              × ((c.distance < d.distance)
                  ⊎ ((c.distance ≡ d.distance) × (d.turn.id ≤ c.turn.id)))))

  Below-IsBehind : (c d : Cand) → IsRanked c → IsRanked d → Below c d → IsBehind c d
  unfolding cmp tie_break
  Below-IsBehind c d (i, hc) (j, hd) below =
      (i, j, hc, hd, ground (arith, laws.by_rank d.priority c.priority))

  All-IsBehind :
      (c : Cand) (ds : List Cand)
      → IsRanked c
      → All IsRanked ds
      → All (Below c) ds
      → All (IsBehind c) ds
  All-IsBehind c [] r rs h = tt
  All-IsBehind c (d ∷ ds) r rs h = (Below-IsBehind c d r rs.0 h.0, All-IsBehind c ds r rs.1 h.1)

  -- If no priority is a NaN: a pop takes one candidate out of the frontier and leaves all others, and
  -- each that is left has a lower priority than the popped one, or the same priority and a larger
  -- distance, or the same of both and an identifier that is not larger.
  pub pop_greatest :
      (cs : List Cand) (c : Cand) (rest : List Cand)
      → All IsRanked cs
      → pop fl cs ≡ some (c, rest)
      → Permᴰ cs (c ∷ rest) × All (IsBehind c) rest
  pop_greatest cs c rest rs h =
      let (r, left) = pop-All fl IsRanked cs c rest rs h in
      (pop-perm fl cs c rest h, All-IsBehind c rest r left (pop_top cs c rest rs h))

  abbrev cand_ids : List Cand → List TurnId
  cand_ids = map (λ c. c.turn.id)

  All-Mem : (P : Cand → Type 0) {cs : List Cand} {c : Cand} → All P cs → Memᴰ c cs → P c
  All-Mem P {cs = []} h m = absurd (Memᴰ.not-nil m)
  All-Mem P {cs = x ∷ cs} h m =
      ⊎_elim (λ e. subst P (sym e) h.0) (λ later. All-Mem P {cs = cs} h.1 later) (Memᴰ.cases_cons m)

  top_same :
      (cs ds rest left : List Cand) (c d : Cand)
      → All IsRanked cs
      → All IsRanked ds
      → Distinct (cand_ids cs)
      → Permᴰ cs ds
      → pop fl cs ≡ some (c, rest)
      → pop fl ds ≡ some (d, left)
      → c ≡ d
  top_same cs ds rest left c d rs rs' once p h k =
      let pc = pop-perm fl cs c rest h in
      let pd = Permᴰ.trans p (pop-perm fl ds d left k) in
      let (rc, _) = pop-All fl IsRanked cs c rest rs h in
      let (rd, _) = pop-All fl IsRanked ds d left rs' k in
      let c_there = Memᴰ-perm pd (Memᴰ-perm (Permᴰ.symm pc) (Memᴰ.head refl)) in
      let d_there = Memᴰ-perm pc (Memᴰ-perm (Permᴰ.symm pd) (Memᴰ.head refl)) in
      let d_below : Below c d =
        ⊎_elim (λ e. subst (Below c) (sym e) (λ z. ground (arith, cmp_reverse c c rc rc)))
          (λ m. All-Mem (Below c) (pop_top cs c rest rs h) m) (Memᴰ.cases_cons d_there) in
      let c_below : Below d c =
        ⊎_elim (λ e. subst (Below d) (sym e) (λ z. ground (arith, cmp_reverse d d rd rd)))
          (λ m. All-Mem (Below d) (pop_top ds d left rs' k) m) (Memᴰ.cases_cons c_there) in
      eq_of_Distinct (λ x. x.turn.id) cs c d once (Memᴰ-perm (Permᴰ.symm pc) (Memᴰ.head refl))
        (Memᴰ-perm (Permᴰ.symm pd) (Memᴰ.head refl)) (same_turn c d rc rd c_below d_below)

  -- If no priority is a NaN and the candidates are of different turns: what a pop yields does not
  -- depend on how the heap holds its members. From two arrangements of the same candidates it takes
  -- the same candidate and leaves the same others.
  pub pop-perm_eq :
      (cs ds rest left : List Cand) (c d : Cand)
      → All IsRanked cs
      → All IsRanked ds
      → Distinct (cand_ids cs)
      → Permᴰ cs ds
      → pop fl cs ≡ some (c, rest)
      → pop fl ds ≡ some (d, left)
      → (c ≡ d) × Perm rest left
  pop-perm_eq cs ds rest left c d rs rs' once p h k =
      let same = top_same cs ds rest left c d rs rs' once p h k in
      let whole : Permᴰ (c ∷ rest) (d ∷ left) =
        Permᴰ.trans (Permᴰ.symm (pop-perm fl cs c rest h))
          (Permᴰ.trans p (pop-perm fl ds d left k)) in
      (same, Perm.cons_inv {a = c} (subst (λ x. Perm (c ∷ rest) (x ∷ left)) (sym same) ∣ whole ∣₁))
