-- ===== src/Base/Take.antt =====
-- The first members of a list, under a key.
use admissibility_kernel.Base.{
  ℕ, zero, suc, ◌≤◌, ◌<◌, ◌≡◌, refl, ap, List, [], ◌∷◌, map, true, contains, Distinct, length, take,
  arith,
}
use admissibility_kernel.Base.Order.{nat_ord}

module _ {ℓ} {A : Type ℓ} (key : A → ℕ) where
  pub contains-take :
      (n : ℕ) (xs : List A) (v : ℕ)
      → contains (map key (take n xs)) v ≡ true
      → contains (map key xs) v ≡ true
  contains-take zero xs v h = cc
  contains-take (suc n) [] v h = cc
  contains-take (suc n) (x ∷ xs) v h = ground (arith, contains-take n xs v)

  pub Distinct-take : (n : ℕ) (xs : List A) → Distinct (map key xs) → Distinct (map key (take n xs))
  Distinct-take zero xs h = tt
  Distinct-take (suc n) [] h = tt
  Distinct-take (suc n) (x ∷ xs) h = ground (arith, Distinct-take n xs, contains-take n xs (key x))

  pub length-take : (n : ℕ) (xs : List A) → length (map key (take n xs)) ≤ n
  length-take zero xs = omega arith
  length-take (suc n) [] = omega arith
  length-take (suc n) (x ∷ xs) = omega (arith, length-take n xs)

  pub take_all : (n : ℕ) (xs : List A) → length (map key (take n xs)) < n → take n xs ≡ xs
  take_all zero xs h = absurd (omega arith)
  take_all (suc n) [] h = refl
  take_all (suc n) (x ∷ xs) h = ap (λ l. x ∷ l) (take_all n xs (omega arith))
