-- ===== src/Base/Order.antt =====
-- `std::cmp::Ordering` and the laws that `Ord` asks of `cmp`.
use Prim.Native.Nat.{ℕ, compare, Ordering}
use Prim.Native.Nat.Ordering.{lt, eq, gt}
use mathlib.Core.Path.{◌≡◌, refl}
use mathlib.Core.List.{List, [], ◌∷◌}
use native.Mathlib.Omega.{arith}

-- `Ordering::reverse`
abbrev pub reverse : Ordering → Ordering
reverse lt = gt
reverse eq = eq
reverse gt = lt

-- `Ordering::then`
abbrev pub then_cmp : Ordering → Ordering → Ordering
then_cmp eq second = second
then_cmp first second = first

pub record IsOrd {ℓ} {X : Type ℓ} (order : X → X → Ordering) : Type ℓ where
  pub cmp_reverse : (x y : X) → order y x ≡ reverse (order x y)
  pub cmp_refl : (x : X) → order x x ≡ eq
  pub lt_trans : (x y z : X) → order x y ≡ lt → order y z ≡ lt → order x z ≡ lt
  pub eq_of_cmp : (x y : X) → order x y ≡ eq → x ≡ y

pub compare-IsOrd : IsOrd compare
compare-IsOrd = ground arith

pub record Ord {ℓ} (X : Type ℓ) : Type ℓ where
  pub cmp : X → X → Ordering
  pub lawful : IsOrd cmp
  pub open lawful use *

instance abbrev pub nat_ord : Ord ℕ
nat_ord = record { cmp = compare; lawful = compare-IsOrd }

module _ {ℓ κ} {B : Type κ} {A : Type ℓ} ⦃b : Ord B⦄ ⦃a : Ord A⦄ where
  -- Tuples compare field by field.
  abbrev pub pair_cmp : A × B → A × B → Ordering
  pair_cmp x y = then_cmp (a.cmp x.0 y.0) (b.cmp x.1 y.1)

  pub pair_cmp-IsOrd : IsOrd {X = A × B} pair_cmp
  pair_cmp-IsOrd = record {
    cmp_refl = λ x. ground (arith, a.cmp_refl x.0, b.cmp_refl x.1);
    eq_of_cmp = λ x y. ground (arith, a.eq_of_cmp x.0 y.0, b.eq_of_cmp x.1 y.1);
    cmp_reverse = λ x y. ground (arith, a.cmp_reverse x.0 y.0, b.cmp_reverse x.1 y.1);
    lt_trans = λ x y z. ground (
      arith,
      a.eq_of_cmp x.0 y.0,
      a.eq_of_cmp y.0 z.0,
      a.lt_trans x.0 y.0 z.0,
      b.lt_trans x.1 y.1 z.1,
    );
  }

  instance abbrev pub pair_ord : Ord (A × B)
  pair_ord = record { cmp = pair_cmp; lawful = pair_cmp-IsOrd }

module _ {ℓ} {A : Type ℓ} ⦃a : Ord A⦄ where
  -- Slices compare lexicographically, and a proper prefix comes first.
  abbrev pub list_cmp : List A → List A → Ordering
  list_cmp [] [] = eq
  list_cmp [] (y ∷ ys) = lt
  list_cmp (x ∷ xs) [] = gt
  list_cmp (x ∷ xs) (y ∷ ys) = then_cmp (a.cmp x y) (list_cmp xs ys)

  list_cmp_refl : (xs : List A) → list_cmp xs xs ≡ eq
  list_cmp_refl [] = refl
  list_cmp_refl (x ∷ xs) = ground (arith, a.cmp_refl x, list_cmp_refl xs)

  eq_of_list_cmp : (xs ys : List A) → list_cmp xs ys ≡ eq → xs ≡ ys
  eq_of_list_cmp [] [] h = refl
  eq_of_list_cmp (x ∷ xs) (y ∷ ys) h = ground (arith, a.eq_of_cmp x y, eq_of_list_cmp xs ys)
  eq_of_list_cmp _ _ h = cc

  list_cmp-reverse : (xs ys : List A) → list_cmp ys xs ≡ reverse (list_cmp xs ys)
  list_cmp-reverse [] [] = refl
  list_cmp-reverse (x ∷ xs) (y ∷ ys) = ground (arith, a.cmp_reverse x y, list_cmp-reverse xs ys)
  list_cmp-reverse _ _ = refl

  list_cmp_trans :
      (xs ys zs : List A) → list_cmp xs ys ≡ lt → list_cmp ys zs ≡ lt → list_cmp xs zs ≡ lt
  list_cmp_trans [] (y ∷ ys) (z ∷ zs) h k = refl
  list_cmp_trans (x ∷ xs) (y ∷ ys) (z ∷ zs) h k =
      ground (arith, a.eq_of_cmp x y, a.eq_of_cmp y z, a.lt_trans x y z, list_cmp_trans xs ys zs)
  list_cmp_trans _ _ _ h k = cc

  pub list_cmp-IsOrd : IsOrd list_cmp
  list_cmp-IsOrd = record {
    cmp_refl = list_cmp_refl;
    eq_of_cmp = eq_of_list_cmp;
    cmp_reverse = list_cmp-reverse;
    lt_trans = list_cmp_trans;
  }

  instance abbrev pub list_ord : Ord (List A)
  list_ord = record { cmp = list_cmp; lawful = list_cmp-IsOrd }
