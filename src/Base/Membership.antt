-- ===== src/Base/Membership.antt =====
-- Membership and distinctness do not see the order of a list.
use mathlib.Core.List.Memᴰ
use mathlib.Core.Logic.{⊎_elim}
use Prim.Native.Nat.{ℕ, suc}
use mathlib.Core.Path.{◌≡◌, refl, ap, sym, ◌∙◌}
use mathlib.Core.Bool.{true}
use mathlib.Core.List.{List, [], ◌∷◌, ◌++◌, map, Memᴰ, Permᴰ}
use native.Mathlib.Omega.{arith}
use admissibility_kernel.Base.Lists.{length, contains, contains-append, Distinct}

pub contains-perm : {xs ys : List ℕ} (a : ℕ) → Permᴰ xs ys → contains xs a ≡ contains ys a
contains-perm a Permᴰ.nil = refl
contains-perm a (Permᴰ.cons e p) = ground (arith, contains-perm a p)
contains-perm a (Permᴰ.swap e f) = ground arith
contains-perm a (Permᴰ.trans p q) = contains-perm a p ∙ contains-perm a q

pub Distinct-perm : {xs ys : List ℕ} → Permᴰ xs ys → Distinct xs → Distinct ys
Distinct-perm Permᴰ.nil h = tt
Distinct-perm (Permᴰ.cons {a} {b} e p) h = ground (arith, contains-perm a p, Distinct-perm p)
Distinct-perm (Permᴰ.swap e f) h = ground arith
Distinct-perm (Permᴰ.trans p q) h = Distinct-perm q (Distinct-perm p h)

-- The left part of a distinct list is distinct.
pub Distinct-left : (xs ys : List ℕ) → Distinct (xs ++ ys) → Distinct xs
Distinct-left [] ys h = tt
Distinct-left (x ∷ xs) ys h = ground (arith, Distinct-left xs ys, contains-append xs ys x)

module _ {A : Type 0} (key : A → ℕ) where
  Memᴰ-contains : (xs : List A) (x : A) → Memᴰ x xs → contains (map key xs) (key x) ≡ true
  Memᴰ-contains [] x m = absurd (Memᴰ.not-nil m)
  Memᴰ-contains (y ∷ ys) x m =
      ⊎_elim (λ e. ground (arith, e)) (λ later. ground (arith, Memᴰ-contains ys x later))
        (Memᴰ.cases_cons m)

  -- In a list with distinct keys, a key has one member.
  pub eq_of_Distinct :
      (xs : List A) (x y : A)
      → Distinct (map key xs)
      → Memᴰ x xs
      → Memᴰ y xs
      → key x ≡ key y
      → x ≡ y
  eq_of_Distinct [] x y once m n same = absurd (Memᴰ.not-nil m)
  eq_of_Distinct (z ∷ xs) x y once m n same =
      ⊎_elim
        (λ e.
          ⊎_elim (λ f. e ∙ sym f)
            (λ later. absurd (ground (arith, e, same, Memᴰ-contains xs y later, once.0)))
            (Memᴰ.cases_cons n))
        (λ here.
          ⊎_elim (λ f. absurd (ground (arith, f, same, Memᴰ-contains xs x here, once.0)))
            (λ later. eq_of_Distinct xs x y once.1 here later same) (Memᴰ.cases_cons n))
        (Memᴰ.cases_cons m)

pub length-perm : {A : Type 0} {xs ys : List A} → Permᴰ xs ys → length xs ≡ length ys
length-perm Permᴰ.nil = refl
length-perm (Permᴰ.cons e p) = ap suc (length-perm p)
length-perm (Permᴰ.swap e f) = refl
length-perm (Permᴰ.trans p q) = length-perm p ∙ length-perm q

pub Memᴰ-perm {ℓ} : {A : Type ℓ} {a : A} {xs ys : List A} → Permᴰ xs ys → Memᴰ a xs → Memᴰ a ys
Memᴰ-perm Permᴰ.nil m = m
Memᴰ-perm (Permᴰ.cons e p) m =
    ⊎_elim (λ here. Memᴰ.head (here ∙ e)) (λ later. Memᴰ.tail (Memᴰ-perm p later))
      (Memᴰ.cases_cons m)
Memᴰ-perm (Permᴰ.swap e f) m =
    ⊎_elim (λ here. Memᴰ.tail (Memᴰ.head (here ∙ e)))
      (λ later.
        ⊎_elim (λ here. Memᴰ.head (here ∙ f)) (λ rest. Memᴰ.tail (Memᴰ.tail rest))
          (Memᴰ.cases_cons later))
      (Memᴰ.cases_cons m)
Memᴰ-perm (Permᴰ.trans p q) m = Memᴰ-perm q (Memᴰ-perm p m)
