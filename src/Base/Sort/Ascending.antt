-- ===== src/Base/Sort/Ascending.antt =====
-- A sort by a numeric key yields ascending keys, and the same keys.
use Prim.Native.Nat.{ℕ, ◌≤◌, compare, Ordering}
use mathlib.Core.Path.{◌≡◌, refl}
use mathlib.Core.Bool.{◌||◌}
use mathlib.Core.List.{List, [], ◌∷◌, map}
use native.Mathlib.Omega.{arith}
use admissibility_kernel.Base.Tests.{◌==◌}
use admissibility_kernel.Base.Lists.{All, contains, length}
use admissibility_kernel.Base.Sort.{insert_by, sort_by}

abbrev pub Ascending : List ℕ → Type 0
Ascending [] = Unit
Ascending (x ∷ xs) = All (λ y. x ≤ y) xs × Ascending xs

All-le : (a b : ℕ) (xs : List ℕ) → a ≤ b → All (λ y. b ≤ y) xs → All (λ y. a ≤ y) xs
All-le a b [] h k = tt
All-le a b (x ∷ xs) h k = (omega arith, All-le a b xs h k.1)

module _ {ℓ} {A : Type ℓ} (key : A → ℕ) where
  abbrev by_key : A → A → Ordering
  by_key x y = compare (key x) (key y)

  All-insert :
      (a : ℕ) (x : A) (ys : List A)
      → a ≤ key x
      → All (λ y. a ≤ y) (map key ys)
      → All (λ y. a ≤ y) (map key (insert_by by_key x ys))
  unfolding insert_by
  All-insert a x [] h k = (h, tt)
  All-insert a x (y ∷ ys) h k = ground (arith, All-insert a x ys)

  insert_by-Ascending :
      (x : A) (ys : List A) → Ascending (map key ys) → Ascending (map key (insert_by by_key x ys))
  unfolding insert_by
  insert_by-Ascending x [] h = (tt, tt)
  insert_by-Ascending x (y ∷ ys) h = ground (
    arith,
    insert_by-Ascending x ys,
    All-insert (key y) x ys,
    All-le (key x) (key y) (map key ys),
  )

  pub sort_by-Ascending : (xs : List A) → Ascending (map key (sort_by by_key xs))
  unfolding sort_by
  sort_by-Ascending [] = tt
  sort_by-Ascending (x ∷ xs) = insert_by-Ascending x (sort_by by_key xs) (sort_by-Ascending xs)

  contains-insert_by :
      (x : A) (ys : List A) (a : ℕ)
      → contains (map key (insert_by by_key x ys)) a ≡ a == key x || contains (map key ys) a
  unfolding insert_by
  contains-insert_by x [] a = refl
  contains-insert_by x (y ∷ ys) a = ground (arith, contains-insert_by x ys a)

  pub contains-sort_by :
      (xs : List A) (a : ℕ) → contains (map key (sort_by by_key xs)) a ≡ contains (map key xs) a
  unfolding sort_by
  contains-sort_by [] a = refl
  contains-sort_by (x ∷ xs) a =
      ground (arith, contains-insert_by x (sort_by by_key xs) a, contains-sort_by xs a)

  length-insert_by : (x : A) (ys : List A) → length (insert_by by_key x ys) ≡ length (x ∷ ys)
  unfolding insert_by
  length-insert_by x [] = refl
  length-insert_by x (y ∷ ys) = ground (arith, length-insert_by x ys)

  pub length-sort_by : (xs : List A) → length (sort_by by_key xs) ≡ length xs
  unfolding sort_by
  length-sort_by [] = refl
  length-sort_by (x ∷ xs) = omega (arith, length-insert_by x (sort_by by_key xs), length-sort_by xs)
