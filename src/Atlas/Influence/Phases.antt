-- ===== src/Atlas/Influence/Phases.antt =====
-- What the counts of phases say: the bridges, and the dominant phase.
use admissibility_kernel.Base.{
  ℕ, ◌≤◌, ◌<◌, ◌≡◌, refl, List, [], ◌∷◌, Bool, true, false, Option, none, some, length, filter, leb,
  ltb, All, if◌then◌else◌, ◌==◌, arith,
}
use admissibility_kernel.Types.Phase.{
  Phase, exploration, debugging, planning, consolidation, synthesis,
}
use admissibility_kernel.Types.Diversity.{phase_rank}
use admissibility_kernel.Atlas.Influence.{
  PhaseCounts, total, increment, add_one, is_cross_phase, phases_of, phase_counts, max_from,
  max_by_count, dominant_phase,
}

-- The count of one phase.
abbrev pub count_of : PhaseCounts → Phase → ℕ
count_of c exploration = c.exploration
count_of c debugging = c.debugging
count_of c planning = c.planning
count_of c consolidation = c.consolidation
count_of c synthesis = c.synthesis

-- `phases.contains(&p)`
abbrev pub has_phase : List Phase → Phase → Bool
has_phase [] p = false
has_phase (q ∷ phases) p = if phase_rank q == phase_rank p then true else has_phase phases p

pub count_of-increment :
    (c : PhaseCounts) (q p : Phase)
    → count_of (increment c q) p
      ≡ (if phase_rank p == phase_rank q then add_one (count_of c p) else count_of c p)
unfolding increment
count_of-increment c exploration p = ground arith
count_of-increment c debugging p = ground arith
count_of-increment c planning p = ground arith
count_of-increment c consolidation p = ground arith
count_of-increment c synthesis p = ground arith

pub total-increment : (c : PhaseCounts) (p : Phase) → total (increment c p) ≡ add_one (total c)
unfolding total increment
total-increment c exploration = omega arith
total-increment c debugging = omega arith
total-increment c planning = omega arith
total-increment c consolidation = omega arith
total-increment c synthesis = omega arith

-- The phases of a bridge are those with a count.
pub has_phase-phases_of :
    (c : PhaseCounts) (p : Phase) → has_phase (phases_of c) p ≡ ltb 0 (count_of c p)
unfolding phases_of
has_phase-phases_of c exploration = ground arith
has_phase-phases_of c debugging = ground arith
has_phase-phases_of c planning = ground arith
has_phase-phases_of c consolidation = ground arith
has_phase-phases_of c synthesis = ground arith

-- What crosses phases has two of them at least.
pub is_cross_phase-phases_of : (c : PhaseCounts) → is_cross_phase c ≡ ltb 1 (length (phases_of c))
unfolding is_cross_phase phases_of
is_cross_phase-phases_of c = ground arith

pub phases_of-le : (c : PhaseCounts) → length (phases_of c) ≤ 5
unfolding phases_of
phases_of-le c = ground arith

-- No number is greater.
abbrev IsBound : ℕ → List (Phase × ℕ) → Type 0
IsBound n = All (λ x. x.1 ≤ n)

either : (P : Phase × ℕ → Type 0) (b : Bool) {x y : Phase × ℕ} → P x → P y → P (if b then x else y)
either P true h k = h
either P false h k = k

greater :
    (best x : Phase × ℕ)
    → (best.1 ≤ (if leb best.1 x.1 then x else best).1)
      × (x.1 ≤ (if leb best.1 x.1 then x else best).1)
greater best x = ground arith

max_from-IsBound :
    (best : Phase × ℕ) (xs : List (Phase × ℕ)) → IsBound (max_from best xs).1 (best ∷ xs)
unfolding max_from
max_from-IsBound best [] = (omega arith, tt)
max_from-IsBound best (x ∷ xs) =
    let next = if leb best.1 x.1 then x else best in
    let grown : (best.1 ≤ next.1) × (x.1 ≤ next.1) = greater best x in
    let bound = max_from-IsBound next xs in (omega arith, (omega arith, bound.1))

-- The number is that of the phase.
abbrev IsCount : PhaseCounts → Phase × ℕ → Type 0
IsCount c x = x.1 ≡ count_of c x.0

abbrev IsPositive : PhaseCounts → Phase × ℕ → Type 0
IsPositive c x = IsCount c x × (0 < x.1)

max_from-IsPositive :
    (c : PhaseCounts) (best : Phase × ℕ) (xs : List (Phase × ℕ))
    → IsPositive c best
    → All (IsPositive c) xs
    → IsPositive c (max_from best xs)
unfolding max_from
max_from-IsPositive c best [] h k = h
max_from-IsPositive c best (x ∷ xs) h k =
    max_from-IsPositive c (if leb best.1 x.1 then x else best) xs
      (either (IsPositive c) (leb best.1 x.1) k.0 h) k.1

abbrev positive : List (Phase × ℕ) → List (Phase × ℕ)
positive = filter (λ x. ltb 0 x.1)

All-positive :
    (c : PhaseCounts) (xs : List (Phase × ℕ))
    → All (IsCount c) xs
    → All (IsPositive c) (positive xs)
All-positive c [] h = tt
All-positive c (x ∷ xs) h = ground (arith, All-positive c xs)

IsBound-positive : (n : ℕ) (xs : List (Phase × ℕ)) → IsBound n (positive xs) → IsBound n xs
IsBound-positive n [] h = tt
IsBound-positive n (x ∷ xs) h = ground (arith, IsBound-positive n xs)

All-phase_counts :
    (c : PhaseCounts) (n : ℕ) → IsBound n (phase_counts c) → (p : Phase) → count_of c p ≤ n
All-phase_counts c n h exploration = h.0
All-phase_counts c n h debugging = h.1.0
All-phase_counts c n h planning = h.1.1.0
All-phase_counts c n h consolidation = h.1.1.1.0
All-phase_counts c n h synthesis = h.1.1.1.1.0

-- What `dominant_phase` may answer.
abbrev pub IsDominant : PhaseCounts → Option Phase → Type 0
IsDominant c none = (p : Phase) → count_of c p ≡ 0
IsDominant c (some p) = (0 < count_of c p) × ((q : Phase) → count_of c q ≤ count_of c p)

max_by_count-IsDominant :
    (c : PhaseCounts) (xs : List (Phase × ℕ))
    → All (IsPositive c) xs
    → ((n : ℕ) → IsBound n xs → (p : Phase) → count_of c p ≤ n)
    → IsDominant c (max_by_count xs)
unfolding max_by_count
max_by_count-IsDominant c [] h all = λ p. let least = all 0 tt p in omega arith
max_by_count-IsDominant c (x ∷ xs) h all =
    let best = max_from x xs in
    let found : IsPositive c best = max_from-IsPositive c x xs h.0 h.1 in
    let bound = all best.1 (max_from-IsBound x xs) in
    (ground (arith, found), λ q. ground (arith, found, bound q))

-- There is a dominant phase unless all counts are 0. Its count is not 0, and no count is greater.
pub dominant_phase_lem : (c : PhaseCounts) → IsDominant c (dominant_phase c)
unfolding dominant_phase
dominant_phase_lem c =
    max_by_count-IsDominant c (positive (phase_counts c))
      (All-positive c (phase_counts c) (refl, (refl, (refl, (refl, (refl, tt))))))
      (λ n h. All-phase_counts c n (IsBound-positive n (phase_counts c) h))
