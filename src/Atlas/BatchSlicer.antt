-- ===== src/Atlas/BatchSlicer.antt =====
-- src/atlas/batch_slicer.rs: slices of many anchors, their registry, and the set of anchors.
pub mod Anchors
pub mod Outcome
pub mod Index
pub mod Signed
use admissibility_kernel.Base.{
  or_empty, ℕ, zero, suc, List, [], ◌∷◌, ◌++◌, map, Option, none, some, Str, Bytes, Bool, codes,
  Result, ok, err, length, find, is_empty, str_eq, compare, ◌==◌, if◌then◌else◌,
}
use admissibility_kernel.Base.Int.{ℤ, pos}
use admissibility_kernel.Base.Order.{nat_ord, list_ord, list_cmp}
use admissibility_kernel.Base.Sort.{sort_by}
use admissibility_kernel.Base.Tree.{get, insert}
use admissibility_kernel.Crates.{Floats, Crypto, Value, int, float, bool, str, obj, end, field}
use admissibility_kernel.Canonical.{seq, canonical_hash_hex}
use admissibility_kernel.Types.Turn.{TurnId, TurnSnapshot}
use admissibility_kernel.Types.Slice.{SliceExport}
use admissibility_kernel.Types.Admissible.{AdmissibleEvidenceBundle}
use admissibility_kernel.Policy.V1.{SlicePolicyV1, PhaseWeights}
use admissibility_kernel.Store.{GraphStore}
use admissibility_kernel.Slicer.{SlicerError, slice}

pub record SliceRegistryEntry : Type 0 where
  pub anchor_turn_id : Str
  pub slice_id : Str
  pub turn_count : ℕ
  pub edge_count : ℕ
  pub policy_params_hash : Str

pub record SliceRegistry : Type 0 where
  pub entries : List SliceRegistryEntry
  pub registry_hash : Str

pub record BatchSliceResult (F : Type 0) : Type 0 where
  pub snapshot_id : Str
  pub anchor_set_hash : Str
  pub policy_id : Str
  pub policy_params_hash : Str
  pub slices : List (SliceExport F)
  pub registry : SliceRegistry

module _ {F : Type 0} where
  -- The derived `Serialize` of the entries and of the policy.
  abbrev pub entry_value : SliceRegistryEntry → Value F
  entry_value e = obj (
      field (codes "anchor_turn_id") (str e.anchor_turn_id) (
        field (codes "slice_id") (str e.slice_id) (
          field (codes "turn_count") (int (pos e.turn_count)) (
            field (codes "edge_count") (int (pos e.edge_count))
              (field (codes "policy_params_hash") (str e.policy_params_hash) end)))))

  abbrev pub phase_weights_value : PhaseWeights F → Value F
  phase_weights_value w = obj (
      field (codes "synthesis") (float w.synthesis) (
        field (codes "planning") (float w.planning) (
          field (codes "consolidation") (float w.consolidation) (
            field (codes "debugging") (float w.debugging)
              (field (codes "exploration") (float w.exploration) end)))))

  abbrev pub policy_value : SlicePolicyV1 F → Value F
  policy_value p = obj (
      field (codes "version") (str p.version) (
        field (codes "max_nodes") (int (pos p.max_nodes)) (
          field (codes "max_radius") (int (pos p.max_radius)) (
            field (codes "phase_weights") (phase_weights_value p.phase_weights) (
              field (codes "salience_weight") (float p.salience_weight) (
                field (codes "distance_decay") (float p.distance_decay) (
                  field (codes "include_siblings") (bool p.include_siblings) (
                    field (codes "max_siblings_per_node") (int (pos p.max_siblings_per_node))
                      end))))))))

module _ {F : Type 0} (cr : Crypto F) where
  -- `SliceRegistry::new`
  unfoldable pub new_registry : List SliceRegistryEntry → SliceRegistry
  new_registry entries = record {
    entries = entries;
    registry_hash = canonical_hash_hex cr (seq (map entry_value entries));
  }

  -- The entry that the loop pushes.
  unfoldable pub new_entry : Str → TurnId → AdmissibleEvidenceBundle F → SliceRegistryEntry
  new_entry policy_params_hash anchor bundle = record {
    anchor_turn_id = cr.uuid_string anchor;
    slice_id = bundle.slice.slice_id;
    turn_count = length bundle.slice.turns;
    edge_count = length bundle.slice.edges;
    policy_params_hash = policy_params_hash;
  }

unfoldable pub get_by_anchor : SliceRegistry → Str → Option SliceRegistryEntry
get_by_anchor r anchor_id = find (λ e. str_eq e.anchor_turn_id anchor_id) r.entries

unfoldable pub get_by_slice_id : SliceRegistry → Str → Option SliceRegistryEntry
get_by_slice_id r slice_id = find (λ e. str_eq e.slice_id slice_id) r.entries

-- What the loop has pushed.
abbrev pub Pushed : Type 0 → Type 0
Pushed F = List (SliceExport F) × List SliceRegistryEntry

module _ {F E : Type 0} (fl : Floats F) (cr : Crypto F) (store : GraphStore F E)
    (policy : SlicePolicyV1 F) (hmac_secret : Bytes) (now : ℤ) where
  -- `slice(anchor).await?` and the two pushes, before the pushes of the later rounds.
  unfoldable pub push_slice :
      Str
      → TurnId
      → Option (Result SlicerError (Pushed F))
      → Option (Result SlicerError (AdmissibleEvidenceBundle F))
      → Option (Result SlicerError (Pushed F))
  unfolding new_entry
  push_slice hash anchor later (some (ok bundle)) = elim later [
    | some (ok (slices, entries)) ↦
        some (ok (bundle.slice ∷ slices, new_entry cr hash anchor bundle ∷ entries))
    | some (err e) ↦ some (err e)
    | none ↦ none
  ]
  push_slice hash anchor later (some (err e)) = some (err e)
  push_slice hash anchor later none = none

  -- The loop over the anchors.
  unfoldable pub slice_loop : Str → List TurnId → Option (Result SlicerError (Pushed F))
  unfolding push_slice
  slice_loop hash [] = some (ok ([], []))
  slice_loop hash (anchor ∷ anchors) =
      push_slice hash anchor (slice_loop hash anchors)
        (slice fl cr store policy hmac_secret now anchor)

  unfoldable pub finish_batch :
      Str
      → Str
      → Str
      → Option (Result SlicerError (Pushed F))
      → Option (Result SlicerError (BatchSliceResult F))
  unfolding new_registry
  finish_batch snapshot_id anchor_set_hash hash (some (ok (slices, entries))) = some (
      ok (record {
        snapshot_id = snapshot_id;
        anchor_set_hash = anchor_set_hash;
        policy_id = policy.version;
        policy_params_hash = hash;
        slices = slices;
        registry = new_registry cr entries;
      }))
  finish_batch snapshot_id anchor_set_hash hash (some (err e)) = some (err e)
  finish_batch snapshot_id anchor_set_hash hash none = none

  -- `BatchSlicer::slice_all`; `none` would mean that a slice does not end.
  unfoldable pub slice_all :
      List TurnId → Str → Str → Option (Result SlicerError (BatchSliceResult F))
  unfolding slice_loop finish_batch
  slice_all anchors snapshot_id anchor_set_hash =
      let hash = canonical_hash_hex cr (policy_value policy) in
      finish_batch snapshot_id anchor_set_hash hash (slice_loop hash anchors)

pub record AnchorSet : Type 0 where
  pub anchors : List TurnId
  pub selection_policy : Str
  pub anchor_set_hash : Str

-- `Vec::dedup`, after a first member.
unfoldable pub dedup_after : TurnId → List TurnId → List TurnId
dedup_after previous [] = []
dedup_after previous (x ∷ xs) =
    let rest = dedup_after x xs in if x == previous then rest else x ∷ rest

unfoldable pub dedup : List TurnId → List TurnId
unfolding dedup_after
dedup [] = []
dedup (x ∷ xs) = x ∷ dedup_after x xs

-- `AnchorSet::new`
unfoldable pub new_anchors : {F : Type 0} → Crypto F → List TurnId → Str → AnchorSet
unfolding dedup
new_anchors cr anchors selection_policy =
    let sorted = dedup (sort_by compare anchors) in
    record {
      anchors = sorted;
      selection_policy = selection_policy;
      anchor_set_hash =
          canonical_hash_hex cr
            (seq (seq (map (λ a. str (cr.uuid_string a)) sorted) ∷ str selection_policy ∷ []));
    }

-- `AnchorSet::len`
unfoldable pub anchor_count : AnchorSet → ℕ
anchor_count s = length s.anchors

-- `AnchorSet::is_empty`
unfoldable pub has_no_anchors : AnchorSet → Bool
has_no_anchors s = is_empty s.anchors

-- The slices of each turn.
abbrev pub TurnIndex : Type 0
TurnIndex = List (Str × List Str)

unfoldable pub push_id : Str → Str → TurnIndex → TurnIndex
push_id slice_id turn_id index =
    insert turn_id (or_empty (get turn_id index) ++ slice_id ∷ []) index

module _ {F : Type 0} (cr : Crypto F) where
  -- The loop over the turns of a slice.
  unfoldable pub index_turns : Str → List (TurnSnapshot F) → TurnIndex → TurnIndex
  unfolding push_id
  index_turns slice_id [] index = index
  index_turns slice_id (t ∷ turns) index =
      index_turns slice_id turns (push_id slice_id (cr.uuid_string t.id) index)

  -- The loop over the slices.
  unfoldable pub index_slices : List (SliceExport F) → TurnIndex → TurnIndex
  unfolding index_turns
  index_slices [] index = index
  index_slices (s ∷ slices) index = index_slices slices (index_turns s.slice_id s.turns index)

  unfoldable pub build_turn_slice_index : BatchSliceResult F → TurnIndex
  unfolding index_slices
  build_turn_slice_index result =
      map (λ e. (e.0, sort_by list_cmp e.1)) (index_slices result.slices [])
