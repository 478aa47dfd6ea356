-- ===== src/Base/Sort/Unique.antt =====
-- A sort by a key forgets the order of its input, if equal keys mean equal members.
use Prim.Native.Nat.{Ordering}
use mathlib.Core.Path.{◌≡◌, refl, ap₂, ◌∙◌}
use mathlib.Core.List.{List, [], ◌∷◌, Memᴰ, Permᴰ}
use mathlib.Core.Logic.{⊎_elim}
use mathlib.Core.List.Memᴰ
use mathlib.Core.List.Permᴰ
use native.Mathlib.Omega.{arith}
use admissibility_kernel.Base.Order.{Ord}
use admissibility_kernel.Base.Sort.{insert_by, sort_by}

module _ {ℓ} {A : Type ℓ} where
  pub Memᴰ-perm : {a : A} {xs ys : List A} → Permᴰ xs ys → Memᴰ a xs → Memᴰ a ys
  Memᴰ-perm Permᴰ.nil m = m
  Memᴰ-perm (Permᴰ.cons e p) m =
      ⊎_elim (λ here. Memᴰ.head (here ∙ e)) (λ later. Memᴰ.tail (Memᴰ-perm p later))
        (Memᴰ.cases_cons m)
  Memᴰ-perm (Permᴰ.swap e f) m =
      ⊎_elim (λ here. Memᴰ.tail (Memᴰ.head (here ∙ e)))
        (λ later.
          ⊎_elim (λ here. Memᴰ.head (here ∙ f)) (λ rest. Memᴰ.tail (Memᴰ.tail rest))
            (Memᴰ.cases_cons later))
        (Memᴰ.cases_cons m)
  Memᴰ-perm (Permᴰ.trans p q) m = Memᴰ-perm q (Memᴰ-perm p m)

module _ {ℓ κ} {A : Type ℓ} {K : Type κ} ⦃o : Ord K⦄ (key : A → K) where
  abbrev pub by_key : A → A → Ordering
  by_key x y = o.cmp (key x) (key y)

  -- Members with one key are one member.
  abbrev pub HasKeys : List A → Type (ℓ ⊔ κ)
  HasKeys xs = (x y : A) → Memᴰ x xs → Memᴰ y xs → key x ≡ key y → x ≡ y

  insert_by_comm :
      (x y : A) (zs : List A)
      → (key x ≡ key y → x ≡ y)
      → insert_by by_key x (insert_by by_key y zs) ≡ insert_by by_key y (insert_by by_key x zs)
  unfolding insert_by
  insert_by_comm x y [] same =
      ground (arith, o.cmp_reverse (key x) (key y), o.eq_of_cmp (key x) (key y))
  insert_by_comm x y (z ∷ zs) same = ground (
    arith,
    o.cmp_reverse (key x) (key y),
    o.cmp_reverse (key x) (key z),
    o.cmp_reverse (key y) (key z),
    o.eq_of_cmp (key x) (key y),
    o.eq_of_cmp (key x) (key z),
    o.eq_of_cmp (key y) (key z),
    o.lt_trans (key x) (key y) (key z),
    o.lt_trans (key y) (key x) (key z),
    o.lt_trans (key x) (key z) (key y),
    o.lt_trans (key y) (key z) (key x),
    insert_by_comm x y zs,
  )

  pub sort_by-eq_of_perm :
      {xs ys : List A} → Permᴰ xs ys → HasKeys xs → sort_by by_key xs ≡ sort_by by_key ys
  unfolding sort_by
  sort_by-eq_of_perm Permᴰ.nil h = refl
  sort_by-eq_of_perm (Permᴰ.cons e p) h =
      ap₂ (insert_by by_key) e
        (sort_by-eq_of_perm p (λ x y mx my. h x y (Memᴰ.tail mx) (Memᴰ.tail my)))
  sort_by-eq_of_perm (Permᴰ.swap {a} {b} {l = l} e f) h =
      insert_by_comm a b (sort_by by_key l) (h a b (Memᴰ.head refl) (Memᴰ.tail (Memᴰ.head refl)))
      ∙ ap₂ (λ u v. insert_by by_key u (insert_by by_key v (sort_by by_key l))) f e
  sort_by-eq_of_perm (Permᴰ.trans p q) h =
      sort_by-eq_of_perm p h
      ∙ sort_by-eq_of_perm q
          (λ x y mx my. h x y (Memᴰ-perm (Permᴰ.symm p) mx) (Memᴰ-perm (Permᴰ.symm p) my))
