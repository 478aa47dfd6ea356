-- ===== src/Types/Slice/Search/Correct.antt =====
-- On ascending keys the binary search decides membership.
use admissibility_kernel.Base.{
  ℕ, zero, suc, ◌+◌, ◌-◌, ◌/◌, ◌≤◌, ◌<◌, ◌≡◌, refl, List, [], ◌∷◌, true, ◌==◌, inl, inr, length,
  contains, All, Bool-cases, arith,
}
use admissibility_kernel.Base.Sort.Ascending.{Ascending}
use admissibility_kernel.Types.Slice.Search.{get_or, narrow, binary_search}

le-get_or : (a : ℕ) (xs : List ℕ) (j : ℕ) → All (λ y. a ≤ y) xs → j < length xs → a ≤ get_or xs j 0
le-get_or a [] j h l = absurd (omega arith)
le-get_or a (x ∷ xs) zero h l = h.0
le-get_or a (x ∷ xs) (suc j) h l = le-get_or a xs j h.1 (omega arith)

get_or_mono :
    (xs : List ℕ) (i j : ℕ) → Ascending xs → i ≤ j → j < length xs → get_or xs i 0 ≤ get_or xs j 0
get_or_mono [] i j h le l = absurd (omega arith)
get_or_mono (x ∷ xs) zero zero h le l = omega arith
get_or_mono (x ∷ xs) zero (suc j) h le l = le-get_or x xs j h.0 (omega arith)
get_or_mono (x ∷ xs) (suc i) zero h le l = absurd (omega arith)
get_or_mono (x ∷ xs) (suc i) (suc j) h le l = get_or_mono xs i j h.1 (omega arith) (omega arith)

index_of_contains :
    (xs : List ℕ) (a : ℕ) → contains xs a ≡ true → (i : ℕ) × (i < length xs) × (get_or xs i 0 ≡ a)
index_of_contains [] a h = cc
index_of_contains (x ∷ xs) a h = elim (Bool-cases (a == x)) [
  | inl here ↦ (0, omega arith, ground arith)
  | inr other ↦ let (i, l, e) = index_of_contains xs a (ground arith) in (suc i, omega arith, e)
]

contains_of_index :
    (xs : List ℕ) (a i : ℕ) → i < length xs → get_or xs i 0 ≡ a → contains xs a ≡ true
contains_of_index [] a i l e = absurd (omega arith)
contains_of_index (x ∷ xs) a zero l e = ground arith
contains_of_index (x ∷ xs) a (suc i) l e = ground (arith, contains_of_index xs a i)

module _ (xs : List ℕ) (a : ℕ) where
  narrow-lt :
      (fuel size base : ℕ)
      → 0 < size
      → base + size ≤ length xs
      → narrow xs a fuel size base < length xs
  unfolding narrow
  narrow-lt zero size base h k = omega arith
  narrow-lt (suc fuel) size base h k = ground (
    arith,
    narrow-lt fuel (size - size / 2) base,
    narrow-lt fuel (size - size / 2) (base + size / 2),
  )

  -- If some place in reach holds the target, the place found does.
  narrow_finds :
      (fuel size base i : ℕ)
      → Ascending xs
      → size ≤ fuel
      → base + size ≤ length xs
      → base ≤ i
      → i < base + size
      → get_or xs i 0 ≡ a
      → get_or xs (narrow xs a fuel size base) 0 ≡ a
  unfolding narrow
  narrow_finds zero size base i s f b lo hi e = absurd (omega arith)
  narrow_finds (suc fuel) size base i s f b lo hi e = ground (
    arith,
    narrow_finds fuel (size - size / 2) base i s,
    narrow_finds fuel (size - size / 2) (base + size / 2) i s,
    narrow_finds fuel (size - size / 2) (base + size / 2) (base + size / 2) s,
    get_or_mono xs i (base + size / 2) s,
    get_or_mono xs (base + size / 2) i s,
  )

pub binary_search-eq-contains :
    (xs : List ℕ) (a : ℕ) → Ascending xs → binary_search xs a ≡ contains xs a
unfolding binary_search
binary_search-eq-contains [] a s = refl
binary_search-eq-contains (x ∷ xs) a s =
    let ys = x ∷ xs in
    let n = length ys in
    let p = narrow ys a n n 0 in
    elim (Bool-cases (contains ys a)) [
      | inl found ↦
          let (i, l, e) = index_of_contains ys a found in
          ground (arith, narrow_finds ys a n n 0 i s, found)
      | inr absent ↦ ground (arith, contains_of_index ys a p, narrow-lt ys a n n 0, absent)
    ]
