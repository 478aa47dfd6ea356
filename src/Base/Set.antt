-- ===== src/Base/Set.antt =====
-- `BTreeSet`, as the list of its members in order.
use Prim.Native.Nat.{◌+◌, ◌≤◌, Ordering}
use Prim.Native.Nat.Ordering.{lt, eq}
use mathlib.Core.Path.{◌≡◌, refl}
use mathlib.Core.Bool.{Bool, true, false, ◌||◌}
use mathlib.Core.List.{List, [], ◌∷◌}
use native.Mathlib.Omega.{arith}
use admissibility_kernel.Base.Tests.{if◌then◌else◌, one_if}
use admissibility_kernel.Base.Lists.{length, filter}
use admissibility_kernel.Base.Order.{Ord}
use admissibility_kernel.Base.Sort.{insert_by}

-- `a < b`, by `cmp`
abbrev pub is_less : Ordering → Bool
is_less lt = true
is_less _ = false

abbrev is_eq : Ordering → Bool
is_eq eq = true
is_eq _ = false

module _ {ℓ} {K : Type ℓ} ⦃o : Ord K⦄ where
  abbrev pub same : K → K → Bool
  same a b = is_eq (o.cmp a b)

  -- `BTreeSet::contains`
  abbrev pub has : List K → K → Bool
  has [] a = false
  has (x ∷ xs) a = same a x || has xs a

  -- `BTreeSet::insert`
  unfoldable pub add : K → List K → List K
  add a xs = if has xs a then xs else insert_by o.cmp a xs

  -- `collect`
  unfoldable pub collect : List K → List K
  unfolding add
  collect [] = []
  collect (x ∷ xs) = add x (collect xs)

  -- `BTreeSet::intersection`
  abbrev pub intersection : List K → List K → List K
  intersection xs ys = filter (has ys) xs

  abbrev pub Separate : List K → Type 0
  Separate [] = Unit
  Separate (x ∷ xs) = (has xs x ≡ false) × Separate xs

  has-insert_by : (a b : K) (xs : List K) → has (insert_by o.cmp a xs) b ≡ same b a || has xs b
  unfolding insert_by
  has-insert_by a b [] = refl
  has-insert_by a b (x ∷ xs) = ground (arith, has-insert_by a b xs)

  Separate-insert_by :
      (a : K) (xs : List K) → has xs a ≡ false → Separate xs → Separate (insert_by o.cmp a xs)
  unfolding insert_by
  Separate-insert_by a [] new h = ground arith
  Separate-insert_by a (x ∷ xs) new h =
      ground (arith, Separate-insert_by a xs, has-insert_by a x xs, o.cmp_reverse a x)

  pub collect-Separate : (xs : List K) → Separate (collect xs)
  unfolding collect add
  collect-Separate [] = tt
  collect-Separate (x ∷ xs) = ground (arith, collect-Separate xs, Separate-insert_by x (collect xs))

  length-filter_cons :
      (x : K) (xs ys : List K)
      → has xs x ≡ false
      → Separate ys
      → length (filter (has (x ∷ xs)) ys) ≡ one_if (has ys x) + length (filter (has xs) ys)
  length-filter_cons x xs [] new h = refl
  length-filter_cons x xs (y ∷ ys) new h =
      ground (arith, length-filter_cons x xs ys, o.cmp_reverse x y, o.eq_of_cmp x y)

  filter_none : (ys : List K) → length (filter (has []) ys) ≡ 0
  filter_none [] = refl
  filter_none (y ∷ ys) = filter_none ys

  pub length-intersection_comm :
      (xs ys : List K)
      → Separate xs
      → Separate ys
      → length (intersection xs ys) ≡ length (intersection ys xs)
  length-intersection_comm [] ys h k = ground (arith, filter_none ys)
  length-intersection_comm (x ∷ xs) ys h k =
      ground (arith, length-intersection_comm xs ys, length-filter_cons x xs ys)

  pub length-intersection-le : (xs ys : List K) → length (intersection xs ys) ≤ length xs
  length-intersection-le [] ys = omega arith
  length-intersection-le (x ∷ xs) ys = ground (arith, length-intersection-le xs ys)
