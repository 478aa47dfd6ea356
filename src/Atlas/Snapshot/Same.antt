-- ===== src/Atlas/Snapshot/Same.antt =====
-- A snapshot names the contents of the graph, not the order in which they are listed.
use mathlib.Core.List.Permᴰ
use admissibility_kernel.Base.{
  ℕ, ◌≡◌, refl, ap, ap₂, ◌∙◌, List, [], ◌∷◌, map, Option, none, some, true, Permᴰ, Str, str_eq,
  str_eq_refl, arith,
}
use admissibility_kernel.Base.Int.{ℤ, pos, max_ℤ, max_or_zero}
use admissibility_kernel.Base.Order.{nat_ord, list_ord, pair_ord}
use admissibility_kernel.Base.Membership.{contains-perm, length-perm}
use admissibility_kernel.Base.Tree.{set_of, set_of-Increasing, contains-set_of, Increasing-ext}
use admissibility_kernel.Base.Sort.Unique.{sort_by-eq_of_perm}
use admissibility_kernel.Crates.{Crypto, str}
use admissibility_kernel.Types.Edge.{Edge}
use admissibility_kernel.Canonical.{seq, canonical_hash_hex}
use admissibility_kernel.Atlas.Snapshot.{
  SnapshotInput, SnapshotIdInput, id_input, id_input_value, hash_turn_ids, hash_edge_pairs,
  compute_snapshot, verify_snapshot, text_pair,
}

-- The greatest of a number and what there is.
abbrev raise : ℤ → Option ℤ → Option ℤ
raise x o = some (elim o [ none ↦ x | some m ↦ max_ℤ x m ])

-- The greatest, if there is one.
abbrev top : List ℤ → Option ℤ
top [] = none
top (x ∷ xs) = raise x (top xs)

max_or_zero-top : (xs : List ℤ) → max_or_zero xs ≡ elim (top xs) [ none ↦ pos 0 | some m ↦ m ]
unfolding max_or_zero
max_or_zero-top [] = refl
max_or_zero-top (x ∷ []) = refl
max_or_zero-top (x ∷ y ∷ xs) = ap (max_ℤ x) (max_or_zero-top (y ∷ xs))

max_ℤ_comm : (x y : ℤ) → max_ℤ x y ≡ max_ℤ y x
max_ℤ_comm x y = ground arith

max_ℤ_left_comm : (x y z : ℤ) → max_ℤ x (max_ℤ y z) ≡ max_ℤ y (max_ℤ x z)
max_ℤ_left_comm x y z = ground arith

top_swap : (x y : ℤ) (o : Option ℤ) → raise x (raise y o) ≡ raise y (raise x o)
top_swap x y none = ap some (max_ℤ_comm x y)
top_swap x y (some m) = ap some (max_ℤ_left_comm x y m)

top-perm : {xs ys : List ℤ} → Permᴰ xs ys → top xs ≡ top ys
top-perm Permᴰ.nil = refl
top-perm (Permᴰ.cons e p) = ground (arith, top-perm p)
top-perm (Permᴰ.swap {a} {b} {l = l} e f) =
    top_swap a b (top l) ∙ ap₂ (λ x y. raise x (raise y (top l))) f e
top-perm (Permᴰ.trans p q) = top-perm p ∙ top-perm q

max_or_zero-perm : {xs ys : List ℤ} → Permᴰ xs ys → max_or_zero xs ≡ max_or_zero ys
max_or_zero-perm {xs} {ys} p = ground (arith, max_or_zero-top xs, max_or_zero-top ys, top-perm p)

module _ {F : Type 0} (cr : Crypto F) where
  hash_turn_ids-perm : {xs ys : List ℕ} → Permᴰ xs ys → hash_turn_ids cr xs ≡ hash_turn_ids cr ys
  unfolding hash_turn_ids
  hash_turn_ids-perm {xs} {ys} p =
      ap (λ ids. canonical_hash_hex cr (seq (map (λ id. str (cr.uuid_string id)) ids)))
        (Increasing-ext (set_of xs) (set_of ys) (set_of-Increasing xs) (set_of-Increasing ys)
          (λ a. ground (arith, contains-set_of xs a, contains-set_of ys a, contains-perm a p)))

  hash_edge_pairs-perm :
      {xs ys : List Edge} → Permᴰ xs ys → hash_edge_pairs cr xs ≡ hash_edge_pairs cr ys
  unfolding hash_edge_pairs
  hash_edge_pairs-perm p =
      ap (λ pairs. canonical_hash_hex cr (seq (map (λ q. seq (str q.0 ∷ str q.1 ∷ [])) pairs)))
        (sort_by-eq_of_perm {K = Str × Str} (λ x. x) (Permᴰ.map (text_pair cr) p)
          (λ x y _ _ same. same))

  id_input-perm :
      (one other : SnapshotInput)
      → Permᴰ one.turn_ids other.turn_ids
      → Permᴰ one.edges other.edges
      → Permᴰ one.timestamps other.timestamps
      → id_input cr one ≡ id_input cr other
  id_input-perm one other p q r = ground (
    arith,
    length-perm p,
    length-perm q,
    max_or_zero-perm r,
    hash_turn_ids-perm p,
    hash_edge_pairs-perm q,
  )

  -- A snapshot verifies against the same turns, edges and timestamps in any order, at any time,
  -- and has the same identifier as theirs.
  pub verify_snapshot-perm :
      (now later : ℤ) (one other : SnapshotInput)
      → Permᴰ one.turn_ids other.turn_ids
      → Permᴰ one.edges other.edges
      → Permᴰ one.timestamps other.timestamps
      → (verify_snapshot cr later (compute_snapshot cr now one) other ≡ true)
        × ((compute_snapshot cr now one).snapshot_id
            ≡ (compute_snapshot cr later other).snapshot_id)
  unfolding verify_snapshot compute_snapshot
  verify_snapshot-perm now later one other p q r =
      let hash = λ (i : SnapshotIdInput). canonical_hash_hex cr (id_input_value i) in
      let same = ap hash (id_input-perm one other p q r) in
      (
        ap (λ s. str_eq s (hash (id_input cr other))) same ∙ str_eq_refl (hash (id_input cr other)),
        same,
      )
