-- ===== src/Atlas/BatchSlicer/Anchors.antt =====
-- `AnchorSet` of src/atlas/batch_slicer.rs as a finite set.
use mathlib.Core.Quot
use mathlib.Core.Quot.{Quot, Quot-set}
use admissibility_kernel.Base.{
  ℕ, ◌≤◌, ◌<◌, ◌≡◌, ◌↔◌, refl, sym, subst, ap, ◌∙◌, List, [], ◌∷◌, map, ◌||◌, Bool, Str, All,
  contains, compare, ◌==◌, arith,
}
use admissibility_kernel.Base.Order.{nat_ord}
use admissibility_kernel.Base.Membership.{contains-perm}
use admissibility_kernel.Base.Sort.{sort_by, sort_by-perm}
use admissibility_kernel.Base.Sort.Ascending.{Ascending, sort_by-Ascending}
use admissibility_kernel.Base.Tree.{Increasing, Increasing-ext}
use admissibility_kernel.Crates.{Crypto, str}
use admissibility_kernel.Canonical.{seq, canonical_hash_hex}
use admissibility_kernel.Atlas.BatchSlicer.{dedup, dedup_after, new_anchors}

map_same : (xs : List ℕ) → map (λ x. x) xs ≡ xs
map_same [] = refl
map_same (x ∷ xs) = ap (λ ys. x ∷ ys) (map_same xs)

All-lt : (a b : ℕ) (xs : List ℕ) → a ≤ b → All (λ y. b < y) xs → All (λ y. a < y) xs
All-lt a b [] h k = tt
All-lt a b (x ∷ xs) h k = (omega arith, All-lt a b xs h k.1)

dedup_after-Increasing :
    (previous : ℕ) (xs : List ℕ)
    → Ascending (previous ∷ xs)
    → Increasing (previous ∷ dedup_after previous xs)
unfolding dedup_after
dedup_after-Increasing previous [] h = (tt, tt)
dedup_after-Increasing previous (x ∷ xs) h =
    ground (arith, dedup_after-Increasing x xs h.1, All-lt previous x (dedup_after x xs))

contains-dedup_after :
    (previous : ℕ) (xs : List ℕ) (a : ℕ)
    → (a == previous || contains (dedup_after previous xs) a) ≡ (a == previous || contains xs a)
unfolding dedup_after
contains-dedup_after previous [] a = refl
contains-dedup_after previous (x ∷ xs) a = ground (arith, contains-dedup_after x xs a)

dedup-Increasing : (xs : List ℕ) → Ascending xs → Increasing (dedup xs)
unfolding dedup
dedup-Increasing [] h = tt
dedup-Increasing (x ∷ xs) h = dedup_after-Increasing x xs h

contains-dedup : (xs : List ℕ) (a : ℕ) → contains (dedup xs) a ≡ contains xs a
unfolding dedup
contains-dedup [] a = refl
contains-dedup (x ∷ xs) a = contains-dedup_after x xs a

-- Two lists hold the same turns.
abbrev pub SameTurns : List ℕ → List ℕ → Type 0
SameTurns xs ys = (a : ℕ) → contains xs a ≡ contains ys a

-- A finite set of turns: a list of them, of which the order and the repetitions are forgotten.
abbrev pub TurnSet : Type 0
TurnSet = Quot SameTurns

pub set_of_turns : List ℕ → TurnSet
set_of_turns = Quot.mk

unfoldable pub holds : ℕ → TurnSet → Bool
holds a = Quot.lift (hlevel) (λ xs. contains xs a) (λ xs ys h. h a)

SameTurns-of_eq : (xs ys : List ℕ) → set_of_turns xs ≡ set_of_turns ys → SameTurns xs ys
unfolding holds set_of_turns
SameTurns-of_eq xs ys e a = ap (holds a) e

module _ {F : Type 0} (cr : Crypto F) (selection_policy : Str) where
  anchors_of : List ℕ → List ℕ
  anchors_of xs = (new_anchors cr xs selection_policy).anchors

  contains-anchors_of : (xs : List ℕ) (a : ℕ) → contains (anchors_of xs) a ≡ contains xs a
  unfolding anchors_of new_anchors
  contains-anchors_of xs a =
      contains-dedup (sort_by compare xs) a ∙ contains-perm a (sort_by-perm compare xs)

  anchors_of-Increasing : (xs : List ℕ) → Increasing (anchors_of xs)
  unfolding anchors_of new_anchors
  anchors_of-Increasing xs =
      dedup-Increasing (sort_by compare xs)
        (subst Ascending (map_same (sort_by compare xs)) (sort_by-Ascending (λ x. x) xs))

  anchors_of-SameTurns : (xs ys : List ℕ) → SameTurns xs ys → anchors_of xs ≡ anchors_of ys
  anchors_of-SameTurns xs ys same =
      Increasing-ext (anchors_of xs) (anchors_of ys) (anchors_of-Increasing xs)
        (anchors_of-Increasing ys)
        (λ a. contains-anchors_of xs a ∙ (same a ∙ sym (contains-anchors_of ys a)))

  whole_of_anchors :
      (xs ys : List ℕ)
      → anchors_of xs ≡ anchors_of ys
      → new_anchors cr xs selection_policy ≡ new_anchors cr ys selection_policy
  unfolding anchors_of new_anchors
  whole_of_anchors xs ys e =
      ap
        (λ sorted. record {
          anchors = sorted;
          selection_policy = selection_policy;
          anchor_set_hash =
              canonical_hash_hex cr
                (seq (seq (map (λ a. str (cr.uuid_string a)) sorted) ∷ str selection_policy ∷ []));
        })
        e

  -- Anchor sets are finite sets: the anchors ascend and are the turns of the set, and two lists give
  -- one anchor set, with one hash, exactly if they give one finite set.
  pub new_anchors_lem :
      (xs ys : List ℕ)
      → Increasing (new_anchors cr xs selection_policy).anchors
        × ((a : ℕ)
            → contains (new_anchors cr xs selection_policy).anchors a ≡ holds a (set_of_turns xs))
        × ((new_anchors cr xs selection_policy ≡ new_anchors cr ys selection_policy)
            ↔ (set_of_turns xs ≡ set_of_turns ys))
  unfolding anchors_of holds set_of_turns
  new_anchors_lem xs ys = (
    anchors_of-Increasing xs,
    contains-anchors_of xs,
    (
      λ e. Quot.sound (λ a.
          sym (contains-anchors_of xs a)
          ∙ (ap (λ s. contains s.anchors a) e ∙ contains-anchors_of ys a)),
      λ e. whole_of_anchors xs ys (anchors_of-SameTurns xs ys (SameTurns-of_eq xs ys e)),
    ),
  )
