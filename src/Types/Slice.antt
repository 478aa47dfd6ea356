-- ===== src/Types/Slice.antt =====
-- src/types/slice.rs: fingerprints, snapshot hashes and exported slices. The admissibility token is
-- in `Token`, the binary search behind `contains_turn` in `Search`.
pub mod Token
pub mod Search
pub mod Contents
use admissibility_kernel.Base.{
  ℕ, zero, suc, ◌/◌, ◌%◌, ◌==◌, List, [], ◌∷◌, ◌++◌, map, Bool, Option, none, some, Str, Bytes,
  codes, as_bytes, hex_digits, length, find, filter,
}
use admissibility_kernel.Base.Int.{ℤ, pos}
use admissibility_kernel.Base.Sort.{sort_by}
use admissibility_kernel.Base.{compare, Ordering}
use admissibility_kernel.Crates.{Crypto, Value, int, str, obj, end, field}
use admissibility_kernel.Canonical.{seq, canonical_hash_hex}
use admissibility_kernel.Types.Turn.{TurnId, TurnSnapshot}
use admissibility_kernel.Types.Edge.{Edge, EdgeType, reply, branch, reference, default, edge_cmp}
use Token.{AdmissibilityToken, issue_hmac, verify_hmac}
use Search.{binary_search}

-- `GRAPH_KERNEL_SCHEMA_VERSION` of src/lib.rs
abbrev pub schema_version_literal : Str
schema_version_literal = codes "1.0.0"

-- The newtypes of a `String`.
abbrev pub SliceFingerprint : Type 0
SliceFingerprint = Str

abbrev pub GraphSnapshotHash : Type 0
GraphSnapshotHash = Str

-- `to_le_bytes`, in k bytes
unfoldable pub to_le_bytes : ℕ → ℕ → Bytes
to_le_bytes zero n = []
to_le_bytes (suc k) n = n % 256 ∷ to_le_bytes k (n / 256)

module _ {F : Type 0} (cr : Crypto F) where
  -- `GraphSnapshotHash::from_stats`
  unfoldable pub from_stats : ℤ → ℕ → ℕ → Str → GraphSnapshotHash
  from_stats max_updated_at turn_count edge_count schema_version = canonical_hash_hex cr (
      seq (
        int max_updated_at ∷ int (pos turn_count) ∷ int (pos edge_count) ∷ str schema_version ∷ []))

  -- The writes of the loop over the turns.
  unfoldable pub content_hash_bytes : List (TurnId × Str) → Bytes
  content_hash_bytes [] = []
  content_hash_bytes ((id, hash) ∷ rest) =
      cr.uuid_bytes id ++ (as_bytes hash ++ content_hash_bytes rest)

  -- `GraphSnapshotHash::from_content_hashes`: the hasher takes its writes one after the other.
  unfoldable pub from_content_hashes : List (TurnId × Str) → ℕ → Str → GraphSnapshotHash
  from_content_hashes turn_content_hashes edge_count schema_version = hex_digits 16 (
      cr.xxh64 (
        to_le_bytes 8 edge_count
        ++ (as_bytes schema_version ++ content_hash_bytes turn_content_hashes)))

pub record SliceExport (F : Type 0) : Type 0 where
  pub anchor_turn_id : TurnId
  pub turns : List (TurnSnapshot F)
  pub edges : List Edge
  pub policy_id : Str
  pub policy_params_hash : Str
  pub schema_version : Str
  pub slice_id : SliceFingerprint
  pub graph_snapshot_hash : GraphSnapshotHash
  pub admissibility_token : AdmissibilityToken

module _ {F : Type 0} where
  abbrev pub turn_ids : List (TurnSnapshot F) → List TurnId
  turn_ids = map (λ t. t.id)

  -- The derived `Serialize`.
  abbrev pub edge_type_value : EdgeType → Value F
  edge_type_value reply = str (codes "Reply")
  edge_type_value branch = str (codes "Branch")
  edge_type_value reference = str (codes "Reference")
  edge_type_value default = str (codes "Default")

  abbrev pub edge_value : Crypto F → Edge → Value F
  edge_value cr e = obj (
      field (codes "parent") (str (cr.uuid_string e.parent)) (
        field (codes "child") (str (cr.uuid_string e.child))
          (field (codes "edge_type") (edge_type_value e.edge_type) end)))

  -- `Ord for TurnSnapshot`: by identifier
  abbrev pub turn_cmp : TurnSnapshot F → TurnSnapshot F → Ordering
  turn_cmp a b = compare a.id b.id

module _ {F : Type 0} (cr : Crypto F) where
  unfoldable pub compute_fingerprint :
      TurnId → List (TurnSnapshot F) → List Edge → Str → Str → SliceFingerprint
  compute_fingerprint anchor turns edges policy_id policy_params_hash = canonical_hash_hex cr (
      seq (
        str (cr.uuid_string anchor)
        ∷ seq (map (λ id. str (cr.uuid_string id)) (turn_ids turns))
        ∷ seq (map (edge_value cr) edges)
        ∷ str policy_id
        ∷ str policy_params_hash
        ∷ str schema_version_literal
        ∷ []))

  unfoldable pub new_with_secret :
      Bytes
      → TurnId
      → List (TurnSnapshot F)
      → List Edge
      → Str
      → Str
      → GraphSnapshotHash
      → SliceExport F
  new_with_secret hmac_secret anchor turns edges policy_id policy_params_hash snapshot =
      let sorted_turns = sort_by turn_cmp turns in
      let sorted_edges = sort_by edge_cmp edges in
      let slice_id =
        compute_fingerprint anchor sorted_turns sorted_edges policy_id policy_params_hash in
      record {
        anchor_turn_id = anchor;
        turns = sorted_turns;
        edges = sorted_edges;
        policy_id = policy_id;
        policy_params_hash = policy_params_hash;
        schema_version = schema_version_literal;
        slice_id = slice_id;
        graph_snapshot_hash = snapshot;
        admissibility_token =
            issue_hmac cr hmac_secret slice_id anchor policy_id policy_params_hash snapshot
              schema_version_literal;
      }

  -- `verify_token`, and `verify_admissibility` with the same body
  unfoldable pub verify_token : SliceExport F → Bytes → Bool
  verify_token s hmac_secret =
      verify_hmac cr s.admissibility_token hmac_secret s.slice_id s.anchor_turn_id s.policy_id
        s.policy_params_hash s.graph_snapshot_hash s.schema_version

module _ {F : Type 0} where
  unfoldable pub num_turns : SliceExport F → ℕ
  num_turns s = length s.turns

  unfoldable pub num_edges : SliceExport F → ℕ
  num_edges s = length s.edges

  unfoldable pub contains_turn : SliceExport F → TurnId → Bool
  contains_turn s id = binary_search (turn_ids s.turns) id

  unfoldable pub anchor_turn : SliceExport F → Option (TurnSnapshot F)
  anchor_turn s = find (λ t. t.id == s.anchor_turn_id) s.turns

  unfoldable pub is_turn_admissible : SliceExport F → TurnId → Bool
  unfolding contains_turn
  is_turn_admissible s id = contains_turn s id

  unfoldable pub filter_admissible : SliceExport F → List TurnId → List TurnId
  unfolding is_turn_admissible
  filter_admissible s ids = filter (is_turn_admissible s) ids
