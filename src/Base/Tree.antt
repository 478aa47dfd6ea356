-- ===== src/Base/Tree.antt =====
-- `BTreeMap` as the list of its entries in the order of the keys, and `BTreeSet` of numbers as the
-- ascending list of its members.
pub mod Same
use Prim.Native.Nat.{ℕ, ◌<◌, compare}
use Prim.Native.Nat.Ordering.{lt, eq, gt}
use mathlib.Core.Path.{◌≡◌, refl}
use mathlib.Core.Logic.{◌≢◌}
use mathlib.Core.Bool.{false, ◌||◌}
use mathlib.Core.Option.{Option, none, some}
use mathlib.Core.List.{List, [], ◌∷◌, map}
use native.Mathlib.Omega.{arith}
use admissibility_kernel.Base.Tests.{◌==◌}
use admissibility_kernel.Base.Lists.{All, contains, Distinct}
use admissibility_kernel.Base.Order.{Ord}

module _ {ℓ} {K : Type ℓ} ⦃o : Ord K⦄ where
  All-trans :
      (a b : K) (ks : List K)
      → o.cmp a b ≡ lt
      → All (λ k'. o.cmp b k' ≡ lt) ks
      → All (λ k'. o.cmp a k' ≡ lt) ks
  All-trans a b [] h k = tt
  All-trans a b (c ∷ ks) h k = (o.lt_trans a b c h k.0, All-trans a b ks h k.1)

module _ {ℓ κ} {K : Type ℓ} {V : Type κ} ⦃o : Ord K⦄ where
  -- `BTreeMap::get`
  unfoldable pub get : K → List (K × V) → Option V
  get k [] = none
  get k ((k', v) ∷ m) =
      let rest = get k m in elim (o.cmp k k') [ lt ↦ none | eq ↦ some v | gt ↦ rest ]

  -- `BTreeMap::insert`, which replaces the value of a key that is there.
  unfoldable pub insert : K → V → List (K × V) → List (K × V)
  insert k v [] = (k, v) ∷ []
  insert k v ((k', w) ∷ m) =
      let rest = insert k v m in
      elim (o.cmp k k') [ lt ↦ (k, v) ∷ (k', w) ∷ m | eq ↦ (k, v) ∷ m | gt ↦ (k', w) ∷ rest ]

  abbrev pub keys : List (K × V) → List K
  keys = map (λ e. e.0)

  -- The keys stand in order, each once.
  abbrev pub IsOrdered : List (K × V) → Type ℓ
  IsOrdered [] = Unit
  IsOrdered ((k, v) ∷ m) = All (λ k'. o.cmp k k' ≡ lt) (keys m) × IsOrdered m

  All-insert :
      (a k : K) (v : V) (m : List (K × V))
      → o.cmp a k ≡ lt
      → All (λ k'. o.cmp a k' ≡ lt) (keys m)
      → All (λ k'. o.cmp a k' ≡ lt) (keys (insert k v m))
  unfolding insert
  All-insert a k v [] h hs = (h, tt)
  All-insert a k v ((k', w) ∷ m) h hs = ground (arith, All-insert a k v m)

  pub insert-IsOrdered : (k : K) (v : V) (m : List (K × V)) → IsOrdered m → IsOrdered (insert k v m)
  unfolding insert
  insert-IsOrdered k v [] h = (tt, tt)
  insert-IsOrdered k v ((k', w) ∷ m) h = ground (
    arith,
    o.cmp_reverse k k',
    o.eq_of_cmp k k',
    All-trans k k' (keys m),
    All-insert k' k v m,
    insert-IsOrdered k v m,
  )

  pub get-insert_same : (k : K) (v : V) (m : List (K × V)) → get k (insert k v m) ≡ some v
  unfolding get insert
  get-insert_same k v [] = ground (arith, o.cmp_refl k)
  get-insert_same k v ((k', w) ∷ m) = ground (arith, o.cmp_refl k, get-insert_same k v m)

  pub get-insert_other :
      (k j : K) (v : V) (m : List (K × V))
      → o.cmp j k ≢ eq
      → IsOrdered m
      → get j (insert k v m) ≡ get j m
  unfolding get insert
  get-insert_other k j v [] other h = ground (arith)
  get-insert_other k j v ((k', w) ∷ m) other h = ground (
    arith,
    o.cmp_reverse k k',
    o.eq_of_cmp k k',
    o.eq_of_cmp j k',
    o.lt_trans j k k',
    o.lt_trans k' j k,
    o.cmp_reverse j k',
    o.cmp_reverse j k,
    get-insert_other k j v m,
  )

  -- Two keys may be inserted in either order.
  pub insert_comm :
      (k j : K) (v w : V) (m : List (K × V))
      → o.cmp k j ≢ eq
      → insert k v (insert j w m) ≡ insert j w (insert k v m)
  unfolding insert
  insert_comm k j v w [] other = ground (arith, o.cmp_reverse k j, o.eq_of_cmp k j)
  insert_comm k j v w ((i, u) ∷ m) other = ground (
    arith,
    o.cmp_reverse k j,
    o.cmp_reverse k i,
    o.cmp_reverse j i,
    o.eq_of_cmp k i,
    o.eq_of_cmp j i,
    o.lt_trans k j i,
    o.lt_trans j k i,
    o.lt_trans k i j,
    o.lt_trans j i k,
    insert_comm k j v w m,
  )

-- `BTreeSet::insert`
unfoldable pub insert_id : ℕ → List ℕ → List ℕ
insert_id x [] = x ∷ []
insert_id x (y ∷ ys) =
    let rest = insert_id x ys in
    elim (compare x y) [ lt ↦ x ∷ y ∷ ys | eq ↦ y ∷ ys | gt ↦ y ∷ rest ]

-- `collect` into a `BTreeSet`
unfoldable pub set_of : List ℕ → List ℕ
unfolding insert_id
set_of [] = []
set_of (x ∷ xs) = insert_id x (set_of xs)

-- Ascending, each member once.
abbrev pub Increasing : List ℕ → Type 0
Increasing [] = Unit
Increasing (x ∷ xs) = All (λ y. x < y) xs × Increasing xs

pub contains-insert_id :
    (x : ℕ) (ys : List ℕ) (a : ℕ) → contains (insert_id x ys) a ≡ a == x || contains ys a
unfolding insert_id
contains-insert_id x [] a = refl
contains-insert_id x (y ∷ ys) a = ground (arith, contains-insert_id x ys a)

pub contains-set_of : (xs : List ℕ) (a : ℕ) → contains (set_of xs) a ≡ contains xs a
unfolding set_of
contains-set_of [] a = refl
contains-set_of (x ∷ xs) a =
    ground (arith, contains-insert_id x (set_of xs) a, contains-set_of xs a)

All-lt_trans : (a b : ℕ) (xs : List ℕ) → a < b → All (λ y. b < y) xs → All (λ y. a < y) xs
All-lt_trans a b [] h k = tt
All-lt_trans a b (x ∷ xs) h k = (omega arith, All-lt_trans a b xs h k.1)

All-insert_id :
    (a x : ℕ) (ys : List ℕ) → a < x → All (λ y. a < y) ys → All (λ y. a < y) (insert_id x ys)
unfolding insert_id
All-insert_id a x [] h k = (h, tt)
All-insert_id a x (y ∷ ys) h k = ground (arith, All-insert_id a x ys)

pub insert_id-Increasing : (x : ℕ) (ys : List ℕ) → Increasing ys → Increasing (insert_id x ys)
unfolding insert_id
insert_id-Increasing x [] h = (tt, tt)
insert_id-Increasing x (y ∷ ys) h =
    ground (arith, insert_id-Increasing x ys, All-insert_id y x ys, All-lt_trans x y ys)

pub set_of-Increasing : (xs : List ℕ) → Increasing (set_of xs)
unfolding set_of
set_of-Increasing [] = tt
set_of-Increasing (x ∷ xs) = insert_id-Increasing x (set_of xs) (set_of-Increasing xs)

lt-not_member : (x : ℕ) (xs : List ℕ) → All (λ y. x < y) xs → contains xs x ≡ false
lt-not_member x [] h = refl
lt-not_member x (y ∷ ys) h = ground (arith, lt-not_member x ys)

pub Increasing-Distinct : (xs : List ℕ) → Increasing xs → Distinct xs
Increasing-Distinct [] h = tt
Increasing-Distinct (x ∷ xs) h = (lt-not_member x xs h.0, Increasing-Distinct xs h.1)

head-lt : (x y : ℕ) (ys : List ℕ) → All (λ z. x < z) (y ∷ ys) → x < y
head-lt x y ys h = h.0

not_member-lt : (a x : ℕ) (xs : List ℕ) → a < x → All (λ y. x < y) xs → contains xs a ≡ false
not_member-lt a x [] h k = refl
not_member-lt a x (y ∷ ys) h k = ground (arith, not_member-lt a x ys)

-- Sets with the same members are the same list.
pub Increasing-ext :
    (xs ys : List ℕ)
    → Increasing xs
    → Increasing ys
    → ((a : ℕ) → contains xs a ≡ contains ys a)
    → xs ≡ ys
Increasing-ext [] [] h k same = refl
Increasing-ext [] (y ∷ ys) h k same = absurd (ground (arith, same y))
Increasing-ext (x ∷ xs) [] h k same = absurd (ground (arith, same x))
Increasing-ext (x ∷ xs) (y ∷ ys) h k same =
    let heads : x ≡ y =
      ground (arith, same x, same y, not_member-lt x y ys, not_member-lt y x xs) in
    let tails : xs ≡ ys =
      Increasing-ext xs ys h.1 k.1
        (λ a. ground (arith, same a, heads, lt-not_member x xs, lt-not_member y ys)) in
    ground (arith, heads, tails)
