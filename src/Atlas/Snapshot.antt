-- ===== src/Atlas/Snapshot.antt =====
-- src/atlas/snapshot.rs: a fingerprint of the whole graph.
pub mod Same
use admissibility_kernel.Base.{
  ℕ, List, [], ◌∷◌, map, Bool, Ordering, Str, Bytes, codes, str_eq, length, Result, ok, err, ◌>>=◌,
}
use admissibility_kernel.Base.Int.{ℤ, pos, max_or_zero}
use admissibility_kernel.Base.Order.{nat_ord, list_ord, pair_cmp}
use admissibility_kernel.Base.Sort.{sort_by}
use admissibility_kernel.Base.Tree.{set_of}
use admissibility_kernel.Crates.{Crypto, Value, int, str, obj, end, field}
use admissibility_kernel.Canonical
use admissibility_kernel.Canonical.{seq, canonical_hash_hex}
use admissibility_kernel.Types.Turn.{TurnId}
use admissibility_kernel.Types.Edge.{Edge}
use admissibility_kernel.Types.Slice.{schema_version_literal}

pub record GraphSnapshot : Type 0 where
  pub snapshot_id : Str
  pub turn_count : ℕ
  pub edge_count : ℕ
  pub max_timestamp : ℤ
  pub schema_version : Str
  pub turn_id_hash : Str
  pub edge_pair_hash : Str
  pub computed_at : ℤ

pub record SnapshotInput : Type 0 where
  pub turn_ids : List TurnId
  pub edges : List Edge
  pub timestamps : List ℤ

pub record SnapshotIdInput : Type 0 where
  pub turn_count : ℕ
  pub edge_count : ℕ
  pub max_timestamp : ℤ
  pub schema_version : Str
  pub turn_id_hash : Str
  pub edge_pair_hash : Str

module _ {F : Type 0} where
  -- The derived `Serialize` of the two structs.
  abbrev pub id_input_value : SnapshotIdInput → Value F
  id_input_value s = obj (
      field (codes "turn_count") (int (pos s.turn_count)) (
        field (codes "edge_count") (int (pos s.edge_count)) (
          field (codes "max_timestamp") (int s.max_timestamp) (
            field (codes "schema_version") (str s.schema_version) (
              field (codes "turn_id_hash") (str s.turn_id_hash)
                (field (codes "edge_pair_hash") (str s.edge_pair_hash) end))))))

  abbrev pub snapshot_value : GraphSnapshot → Value F
  snapshot_value s = obj (
      field (codes "snapshot_id") (str s.snapshot_id) (
        field (codes "turn_count") (int (pos s.turn_count)) (
          field (codes "edge_count") (int (pos s.edge_count)) (
            field (codes "max_timestamp") (int s.max_timestamp) (
              field (codes "schema_version") (str s.schema_version) (
                field (codes "turn_id_hash") (str s.turn_id_hash) (
                  field (codes "edge_pair_hash") (str s.edge_pair_hash)
                    (field (codes "computed_at") (int s.computed_at) end))))))))

module _ {F : Type 0} (cr : Crypto F) where
  -- The sorted identifiers, printed.
  unfoldable pub hash_turn_ids : List TurnId → Str
  hash_turn_ids ids = canonical_hash_hex cr (seq (map (λ id. str (cr.uuid_string id)) (set_of ids)))

  abbrev pub text_pair : Edge → Str × Str
  text_pair e = (cr.uuid_string e.parent, cr.uuid_string e.child)

  abbrev pub pair_order : Str × Str → Str × Str → Ordering
  pair_order = pair_cmp

  -- The sorted pairs of parent and child, printed.
  unfoldable pub hash_edge_pairs : List Edge → Str
  hash_edge_pairs edges =
      canonical_hash_hex cr
        (seq (map (λ p. seq (str p.0 ∷ str p.1 ∷ [])) (sort_by pair_order (map text_pair edges))))

  abbrev pub id_input : SnapshotInput → SnapshotIdInput
  id_input input = record {
    turn_count = length input.turn_ids;
    edge_count = length input.edges;
    max_timestamp = max_or_zero input.timestamps;
    schema_version = schema_version_literal;
    turn_id_hash = hash_turn_ids input.turn_ids;
    edge_pair_hash = hash_edge_pairs input.edges;
  }

  -- `GraphSnapshot::compute`, at the time `now`
  unfoldable pub compute_snapshot : ℤ → SnapshotInput → GraphSnapshot
  compute_snapshot now input =
      let i = id_input input in
      record {
        snapshot_id = canonical_hash_hex cr (id_input_value i);
        turn_count = i.turn_count;
        edge_count = i.edge_count;
        max_timestamp = i.max_timestamp;
        schema_version = schema_version_literal;
        turn_id_hash = i.turn_id_hash;
        edge_pair_hash = i.edge_pair_hash;
        computed_at = now;
      }

  -- `GraphSnapshot::to_canonical_bytes`
  unfoldable pub snapshot_bytes : GraphSnapshot → Bytes
  snapshot_bytes s = Canonical.to_canonical_bytes cr (snapshot_value s)

  -- `GraphSnapshot::verify`
  unfoldable pub verify_snapshot : ℤ → GraphSnapshot → SnapshotInput → Bool
  verify_snapshot now s input =
      let recomputed = compute_snapshot now input in str_eq s.snapshot_id recomputed.snapshot_id

-- The answers of a `SnapshotStore`.
pub record SnapshotStore (E : Type 0) : Type 0 where
  pub get_all_turn_ids : Result E (List TurnId)
  pub get_all_edges : Result E (List Edge)
  pub get_timestamps : List TurnId → Result E (List ℤ)

-- `SnapshotStore::compute_snapshot`
unfoldable pub snapshot_of :
    {F E : Type 0} → Crypto F → ℤ → SnapshotStore E → Result E GraphSnapshot
snapshot_of cr now store = do
  turn_ids ← store.get_all_turn_ids
  edges ← store.get_all_edges
  timestamps ← store.get_timestamps turn_ids
  ok (
      compute_snapshot cr now
        (record { turn_ids = turn_ids; edges = edges; timestamps = timestamps }))
