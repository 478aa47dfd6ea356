-- ===== src/Types/Boundary/Access.antt =====
-- What the guard and the builder of src/types/boundary.rs promise.
use mathlib.Core.List.{append_assoc, append-nil}
use admissibility_kernel.Base.{
  ◌≡◌, refl, sym, ap, ◌∙◌, inl, inr, List, [], ◌∷◌, ◌++◌, Bool, not, Option, none, some, Str, Bytes,
  codes, join, contains, filter, all, is_empty, Permᴰ, Bool-cases, arith,
}
use admissibility_kernel.Base.Int.{ℤ}
use admissibility_kernel.Base.Order.{nat_ord}
use admissibility_kernel.Base.Sort.Unique.{sort_by-eq_of_perm}
use admissibility_kernel.Crates.{Crypto}
use admissibility_kernel.Types.Turn.{TurnId, TurnSnapshot}
use admissibility_kernel.Types.Edge.{Edge}
use admissibility_kernel.Types.Slice.{GraphSnapshotHash, new_with_secret, contains_turn}
use admissibility_kernel.Types.Slice.Contents.{contains_turn-new_with_secret, contains-turn_ids}
use admissibility_kernel.Types.Boundary.{
  id_bytes, SliceBoundaryGuard, compute_boundary_hash, from_slice, contains_id, BoundedQueryBuilder,
  push_filters, push_order, build, BoundaryViolation, violation, new_violation, check_access,
  is_authorized,
}

filter-all :
    (p : TurnId → Bool) (ids : List TurnId) → is_empty (filter (λ id. not (p id)) ids) ≡ all p ids
filter-all p [] = refl
filter-all p (x ∷ ids) = ground (arith, filter-all p ids)

-- Access is authorized exactly if the guard holds every requested turn. If not, the violation names
-- the guard's slice and lists exactly the requested turns that the guard does not hold, in order.
pub check_access_lem :
    (now : ℤ) (g : SliceBoundaryGuard) (ids : List TurnId) (context : Option Str)
    → (is_authorized (check_access now g ids context) ≡ all (contains_id g) ids)
      × ((v : BoundaryViolation)
          → check_access now g ids context ≡ violation v
          → (v.unauthorized_ids ≡ filter (λ id. not (contains_id g id)) ids)
            × (v.slice_fingerprint ≡ g.slice_fingerprint))
unfolding check_access new_violation is_authorized contains_id
check_access_lem now g ids context =
    elim (Bool-cases (is_empty (filter (λ id. not (contains g.turn_ids id)) ids))) [
      | inl none_left ↦ (
        ground (arith, none_left, filter-all (contains g.turn_ids) ids),
        λ v h. absurd (ground (arith, none_left)),
      )
      | inr some_left ↦ (
        ground (arith, some_left, filter-all (contains g.turn_ids) ids),
        λ v h. (ground (arith, some_left), ground (arith, some_left)),
      )
    ]

module _ {F : Type 0} (cr : Crypto F) where
  -- The guard of an exported slice holds exactly the turns that the slice holds.
  pub contains_id-from_slice :
      (secret : Bytes) (anchor : TurnId) (turns : List (TurnSnapshot F)) (edges : List Edge)
      (policy_id params_hash : Str) (snapshot : GraphSnapshotHash) (id : TurnId)
      → let s = new_with_secret cr secret anchor turns edges policy_id params_hash snapshot in
        contains_id (from_slice cr s) id ≡ contains_turn s id
  unfolding contains_id from_slice
  contains_id-from_slice secret anchor turns edges policy_id params_hash snapshot id =
      contains-turn_ids cr secret anchor policy_id params_hash snapshot turns edges id
      ∙ sym (
          contains_turn-new_with_secret cr secret anchor policy_id params_hash snapshot turns edges
            id)

  -- The boundary hash does not depend on the order of the turns.
  pub compute_boundary_hash-perm :
      {ids ids' : List TurnId}
      → Permᴰ ids ids'
      → compute_boundary_hash cr ids ≡ compute_boundary_hash cr ids'
  unfolding compute_boundary_hash
  compute_boundary_hash-perm p =
      ap (λ l. cr.xxh64 (id_bytes cr l))
        (sort_by-eq_of_perm {K = TurnId} (λ id. id) p (λ x y _ _ same. same))

-- The filters of a query, each after an `AND`.
abbrev pub conditions : List Str → Str
conditions [] = []
conditions (f ∷ filters) = codes " AND " ++ (f ++ conditions filters)

abbrev pub order_clause : Option Str → Str
order_clause none = []
order_clause (some order) = codes " ORDER BY " ++ order

push_filters_lem :
    (sql : Str) (filters : List Str) → push_filters sql filters ≡ sql ++ conditions filters
unfolding push_filters
push_filters_lem sql [] = sym (append-nil sql)
push_filters_lem sql (f ∷ filters) =
    push_filters_lem (sql ++ (codes " AND " ++ f)) filters
    ∙ append_assoc sql (codes " AND " ++ f) (conditions filters)

push_order_lem : (sql : Str) (order : Option Str) → push_order sql order ≡ sql ++ order_clause order
unfolding push_order
push_order_lem sql none = sym (append-nil sql)
push_order_lem sql (some order) = refl

-- A query is confined to the guard's turns first, then by each filter in the order in which they
-- were added, and ordered last.
pub build_lem :
    (b : BoundedQueryBuilder)
    → build b
      ≡ codes "SELECT "
        ++ (join (codes ", ") b.columns
            ++ (codes " FROM "
                ++ (b.table
                    ++ (codes " WHERE id = ANY($1)"
                        ++ (conditions b.additional_filters ++ order_clause b.order_by)))))
unfolding build
build_lem b =
    let columns = join (codes ", ") b.columns in
    let confined = codes " WHERE id = ANY($1)" in
    let base = codes "SELECT " ++ (columns ++ (codes " FROM " ++ (b.table ++ confined))) in
    let tail = conditions b.additional_filters ++ order_clause b.order_by in
    push_order_lem (push_filters base b.additional_filters) b.order_by
    ∙ ap (λ s. s ++ order_clause b.order_by) (push_filters_lem base b.additional_filters)
    ∙ append_assoc base (conditions b.additional_filters) (order_clause b.order_by)
    ∙ ap (λ r. codes "SELECT " ++ r)
        (append_assoc columns (codes " FROM " ++ (b.table ++ confined)) tail
          ∙ ap (λ r. columns ++ (codes " FROM " ++ r)) (append_assoc b.table confined tail))
