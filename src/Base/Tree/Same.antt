-- ===== src/Base/Tree/Same.antt =====
-- Maps with the same answers are the same map.
use Prim.Native.Nat.Ordering.{lt, gt}
use mathlib.Core.Path.{◌≡◌, refl}
use mathlib.Core.Logic.{◌≢◌}
use mathlib.Core.List.{List, [], ◌∷◌}
use mathlib.Core.Option.{none, some}
use native.Mathlib.Omega.{arith}
use admissibility_kernel.Base.Lists.{All}
use admissibility_kernel.Base.Order.{Ord}
use admissibility_kernel.Base.Tree.{get, keys, IsOrdered}

module _ {ℓ} {K : Type ℓ} {V : Type 0} ⦃o : Ord K⦄ where
  -- What does not come after the first key is not among the later ones.
  pub get-front :
      (a k : K) (m : List (K × V))
      → o.cmp a k ≢ gt
      → All (λ k'. o.cmp k k' ≡ lt) (keys m)
      → get a m ≡ none
  unfolding get
  get-front a k [] early h = refl
  get-front a k ((i, w) ∷ m) early h = ground (arith, o.lt_trans a k i, o.eq_of_cmp a k)

  get-head : (k : K) (v : V) (m : List (K × V)) → get k ((k, v) ∷ m) ≡ some v
  unfolding get
  get-head k v m = ground (arith, o.cmp_refl k)

  pub ordered-ext :
      (m n : List (K × V)) → IsOrdered m → IsOrdered n → ((k : K) → get k m ≡ get k n) → m ≡ n
  unfolding get
  ordered-ext [] [] h i same = refl
  ordered-ext [] ((j, w) ∷ n) h i same = absurd (ground (arith, same j, get-head j w n))
  ordered-ext ((k, v) ∷ m) [] h i same = absurd (ground (arith, same k, get-head k v m))
  ordered-ext ((k, v) ∷ m) ((j, w) ∷ n) h i same =
      let keys_same : k ≡ j = ground (
        arith,
        same k,
        same j,
        get-head k v m,
        get-head j w n,
        o.cmp_reverse k j,
        o.eq_of_cmp k j,
      ) in
      let values_same : v ≡ w = ground (arith, same k, get-head k v m, get-head j w n, keys_same) in
      let tails : m ≡ n =
        ordered-ext m n h.1 i.1 (λ a.
          ground (arith, same a, keys_same, get-front a k m, get-front a j n, o.cmp_refl a)) in
      ground (arith, keys_same, values_same, tails)

  All-get-later :
      (k : K) (v : V) (m xs : List (K × V))
      → All (λ k'. o.cmp k k' ≡ lt) (keys xs)
      → All (λ x. get x.0 m ≡ some x.1) xs
      → All (λ x. get x.0 ((k, v) ∷ m) ≡ some x.1) xs
  unfolding get
  All-get-later k v m [] h i = tt
  All-get-later k v m ((j, w) ∷ xs) h i =
      (ground (arith, o.cmp_reverse k j), All-get-later k v m xs h.1 i.1)

  -- Each entry is found by its key.
  pub All-get : (m : List (K × V)) → IsOrdered m → All (λ x. get x.0 m ≡ some x.1) m
  All-get [] h = tt
  All-get ((k, v) ∷ m) h = (get-head k v m, All-get-later k v m m h.0 (All-get m h.1))
