-- ===== src/Base/Sort.antt =====
-- `slice::sort_by`, a stable sort, as an insertion sort.
pub mod Unique
pub mod Ascending
use Prim.Native.Nat.{ℕ, suc, compare, Ordering}
use Prim.Native.Nat.Ordering.{lt, eq, gt}
use mathlib.Core.Path.{◌≡◌, refl, ap, ap₂, sym, ◌∙◌}
use mathlib.Core.List.{List, [], ◌∷◌, map, Memᴰ, Permᴰ}
use mathlib.Core.List.Memᴰ
use mathlib.Core.List.Permᴰ
use native.Mathlib.Omega.{arith}
use admissibility_kernel.Base.Order.{Ord, reverse}
use admissibility_kernel.Base.Lists.{length, All}

module _ {ℓ} {A : Type ℓ} where
  -- Before the first member that is not smaller.
  unfoldable pub insert_by : (A → A → Ordering) → A → List A → List A
  insert_by cmp x [] = x ∷ []
  insert_by cmp x (y ∷ ys) =
      let rest = insert_by cmp x ys in elim (cmp x y) [ gt ↦ y ∷ rest | _ ↦ x ∷ y ∷ ys ]

  unfoldable pub sort_by : (A → A → Ordering) → List A → List A
  unfolding insert_by
  sort_by cmp [] = []
  sort_by cmp (x ∷ xs) = insert_by cmp x (sort_by cmp xs)

  insert_by-perm :
      (cmp : A → A → Ordering) (x : A) (ys : List A) → Permᴰ (insert_by cmp x ys) (x ∷ ys)
  unfolding insert_by
  insert_by-perm cmp x [] = Permᴰ.refl _
  insert_by-perm cmp x (y ∷ ys) =
      elim (cmp x y)
        as (λ o. Permᴰ (elim o [ gt ↦ y ∷ insert_by cmp x ys | _ ↦ x ∷ y ∷ ys ]) (x ∷ y ∷ ys)) [
          | gt ↦ Permᴰ.trans (Permᴰ.cons refl (insert_by-perm cmp x ys)) (Permᴰ.swap refl refl)
          | _ ↦ Permᴰ.refl _
        ]

  pub sort_by-perm : (cmp : A → A → Ordering) (xs : List A) → Permᴰ (sort_by cmp xs) xs
  unfolding sort_by
  sort_by-perm cmp [] = Permᴰ.nil
  sort_by-perm cmp (x ∷ xs) =
      Permᴰ.trans (insert_by-perm cmp x (sort_by cmp xs)) (Permᴰ.cons refl (sort_by-perm cmp xs))
