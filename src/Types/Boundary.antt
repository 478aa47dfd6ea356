-- ===== src/Types/Boundary.antt =====
-- src/types/boundary.rs: the guard that confines queries to a slice, and its query builder.
pub mod Access
use admissibility_kernel.Base.{
  ℕ, List, [], ◌∷◌, ◌++◌, Bool, true, false, not, Option, none, some, Str, Bytes, codes, join,
  compare, contains, filter, length, is_empty, ◌==◌, if◌then◌else◌,
}
use admissibility_kernel.Base.Int.{ℤ}
use admissibility_kernel.Base.Sort.{sort_by}
use admissibility_kernel.Crates.{Crypto}
use admissibility_kernel.Types.Turn.{TurnId}
use admissibility_kernel.Types.Slice
use admissibility_kernel.Types.Slice.{SliceExport}

pub record SliceBoundaryGuard : Type 0 where
  pub turn_ids : List TurnId
  pub slice_fingerprint : Str
  pub boundary_hash : ℕ

module _ {F : Type 0} (cr : Crypto F) where
  -- The loop over the sorted identifiers.
  unfoldable pub id_bytes : List TurnId → Bytes
  id_bytes [] = []
  id_bytes (id ∷ ids) = cr.uuid_bytes id ++ id_bytes ids

  unfoldable pub compute_boundary_hash : List TurnId → ℕ
  unfolding id_bytes
  compute_boundary_hash turn_ids = cr.xxh64 (id_bytes (sort_by compare turn_ids))

  unfoldable pub from_slice : SliceExport F → SliceBoundaryGuard
  unfolding compute_boundary_hash
  from_slice s =
      let turn_ids = Slice.turn_ids s.turns in
      record {
        turn_ids = turn_ids;
        slice_fingerprint = s.slice_id;
        boundary_hash = compute_boundary_hash turn_ids;
      }

-- `SliceBoundaryGuard::len`
unfoldable pub len : SliceBoundaryGuard → ℕ
len g = length g.turn_ids

-- `SliceBoundaryGuard::contains`
unfoldable pub contains_id : SliceBoundaryGuard → TurnId → Bool
contains_id g id = contains g.turn_ids id

unfoldable pub same_boundary : SliceBoundaryGuard → SliceBoundaryGuard → Bool
same_boundary g h = g.boundary_hash == h.boundary_hash

pub record BoundedQueryBuilder : Type 0 where
  pub guard : SliceBoundaryGuard
  pub table : Str
  pub columns : List Str
  pub additional_filters : List Str
  pub order_by : Option Str

unfoldable pub new_builder : SliceBoundaryGuard → Str → BoundedQueryBuilder
new_builder guard table = record {
  guard = guard;
  table = table;
  columns = codes "*" ∷ [];
  additional_filters = [];
  order_by = none;
}

unfoldable pub select : BoundedQueryBuilder → List Str → BoundedQueryBuilder
select b columns = record b { columns = columns }

-- `BoundedQueryBuilder::filter`
unfoldable pub add_filter : BoundedQueryBuilder → Str → BoundedQueryBuilder
add_filter b filter = record b { additional_filters = b.additional_filters ++ filter ∷ [] }

unfoldable pub set_order_by : BoundedQueryBuilder → Str → BoundedQueryBuilder
set_order_by b order = record b { order_by = some order }

-- The loop over the filters.
unfoldable pub push_filters : Str → List Str → Str
push_filters sql [] = sql
push_filters sql (filter ∷ filters) = push_filters (sql ++ (codes " AND " ++ filter)) filters

unfoldable pub push_order : Str → Option Str → Str
push_order sql none = sql
push_order sql (some order) = sql ++ (codes " ORDER BY " ++ order)

unfoldable pub build : BoundedQueryBuilder → Str
unfolding push_filters push_order
build b =
    let columns = join (codes ", ") b.columns in
    let sql =
      codes "SELECT "
      ++ (columns ++ (codes " FROM " ++ (b.table ++ codes " WHERE id = ANY($1)"))) in
    push_order (push_filters sql b.additional_filters) b.order_by

pub record BoundaryViolation : Type 0 where
  pub slice_fingerprint : Str
  pub unauthorized_ids : List TurnId
  pub timestamp : ℤ
  pub context : Option Str

pub data BoundaryCheck : Type 0 where
  authorized : BoundaryCheck
  violation : BoundaryViolation → BoundaryCheck

-- `BoundaryViolation::new`, with the time that the clock gives.
unfoldable pub new_violation :
    ℤ → SliceBoundaryGuard → List TurnId → Option Str → Option BoundaryViolation
new_violation now guard requested_ids context =
    let unauthorized_ids = filter (λ id. not (contains guard.turn_ids id)) requested_ids in
    if is_empty unauthorized_ids
    then none
    else some (record {
      slice_fingerprint = guard.slice_fingerprint;
      unauthorized_ids = unauthorized_ids;
      timestamp = now;
      context = context;
    })

unfoldable pub check_access : ℤ → SliceBoundaryGuard → List TurnId → Option Str → BoundaryCheck
unfolding new_violation
check_access now guard requested_ids context =
    elim (new_violation now guard requested_ids context) [
      | some v ↦ violation v
      | none ↦ authorized
    ]

unfoldable pub is_authorized : BoundaryCheck → Bool
is_authorized authorized = true
is_authorized (violation v) = false

-- `BoundaryCheck::violation`
unfoldable pub get_violation : BoundaryCheck → Option BoundaryViolation
get_violation authorized = none
get_violation (violation v) = some v
