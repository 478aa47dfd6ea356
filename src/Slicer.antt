-- ===== src/Slicer.antt =====
-- src/slicer.rs: `ContextSlicer::slice`. The frontier is a list, from which a round takes the
-- greatest candidate as `BinaryHeap::pop` does. A round of the `while let` loop is `round`, and
-- `expand_loop` runs it on fuel: `max_nodes + 1` rounds suffice.
pub mod Frontier
pub mod Rules
pub mod Rounds
pub mod Ends
pub mod Errors
pub mod Sound
pub mod Bundle
pub mod InMemory
pub mod Seen
pub mod Complete
pub mod Kept
pub mod Display
pub mod Anchor
pub mod Invariant
use Prim.Native.Nat.Ordering.{gt}
use admissibility_kernel.Base.{
  ℕ, zero, suc, ◌+◌, ◌^◌, ◌%◌, List, [], ◌∷◌, ◌++◌, map, Bool, true, false, ◌&&◌, Option, none,
  some, Str, Bytes, Result, ok, err, ◌>>=◌, ltb, leb, length, all, contains, if◌then◌else◌, compare,
}
use admissibility_kernel.Base.Int.{ℤ, max_or_zero}
use admissibility_kernel.Base.Sort.{sort_by}
use admissibility_kernel.Crates.{Floats, Crypto}
use admissibility_kernel.Types.Turn.{TurnId, TurnSnapshot, has_content_hash}
use admissibility_kernel.Types.Edge.{Edge}
use admissibility_kernel.Types.Slice.{
  GraphSnapshotHash, from_stats, from_content_hashes, new_with_secret, schema_version_literal,
  turn_ids,
}
use admissibility_kernel.Types.Admissible.{
  AdmissibleEvidenceBundle, VerificationError, from_verified,
}
use admissibility_kernel.Policy.V1.{SlicePolicyV1, policy_id, params_hash}
use admissibility_kernel.Policy.Scoring
use admissibility_kernel.Policy.Scoring.{ExpansionCandidate}
use admissibility_kernel.Store.{GraphStore}
use Frontier.{pop}

pub data SlicerError : Type 0 where
  anchor_not_found : TurnId → SlicerError
  store_error : Str → SlicerError
  verification_error : VerificationError → SlicerError

-- The local variables of the loop.
pub record Expansion (F : Type 0) : Type 0 where
  pub selected : List (TurnSnapshot F)
  pub visited : List TurnId
  pub frontier : List (ExpansionCandidate F)

-- How a round ends: by `break` or an empty frontier, by `continue` or its end, by `?`.
pub data Round (F : Type 0) : Type 0 where
  finished : Expansion F → Round F
  continues : Expansion F → Round F
  failed : SlicerError → Round F

-- `distance + 1` of a `u32`, where overflow wraps round.
abbrev pub next_distance : ℕ → ℕ
next_distance distance = (distance + 1) % 2 ^ 32

module _ {F E : Type 0} (store : GraphStore F E) where
  -- `.map_err(|e| SlicerError::StoreError(e.to_string()))`
  unfoldable pub from_store : {A : Type 0} → Result E A → Result SlicerError A
  from_store (ok a) = ok a
  from_store (err e) = err (store_error (store.error_string e))

module _ {F E : Type 0} (fl : Floats F) (store : GraphStore F E) (policy : SlicePolicyV1 F) where
  -- `frontier.push(ExpansionCandidate::new(turn, distance, policy))`, if the turn is there
  unfoldable pub push_turn : ℕ → Option (TurnSnapshot F) → Expansion F → Expansion F
  push_turn distance none s = s
  push_turn distance (some turn) s = record s {
    frontier = Scoring.new fl turn distance policy ∷ s.frontier;
  }

  -- The body of the three `for` loops over neighbours.
  unfoldable pub visit : ℕ → TurnId → Expansion F → Result SlicerError (Expansion F)
  unfolding from_store push_turn
  visit distance id s = if contains s.visited id then ok s else do
    turn ← from_store store (store.get_turn id)
    ok (push_turn distance turn (record s { visited = id ∷ s.visited }))

  unfoldable pub visit_all : ℕ → List TurnId → Expansion F → Result SlicerError (Expansion F)
  unfolding visit
  visit_all distance [] s = ok s
  visit_all distance (id ∷ ids) s = do s' ← visit distance id s; visit_all distance ids s'

  -- Siblings stay at the distance of their node.
  unfoldable pub expand_siblings : ℕ → TurnId → Expansion F → Result SlicerError (Expansion F)
  unfolding visit_all
  expand_siblings distance id s =
      if policy.include_siblings && ltb 0 policy.max_siblings_per_node
      then (do
        siblings ← from_store store (store.get_siblings id policy.max_siblings_per_node)
        visit_all distance siblings s)
      else ok s

  -- Parents, children, siblings.
  unfoldable pub expand : ℕ → ℕ → TurnId → Expansion F → Result SlicerError (Expansion F)
  unfolding expand_siblings
  expand distance next id s = do
    parents ← from_store store (store.get_parents id)
    s1 ← visit_all next parents s
    children ← from_store store (store.get_children id)
    s2 ← visit_all next children s1
    expand_siblings distance id s2

  unfoldable pub to_round : Result SlicerError (Expansion F) → Round F
  to_round (ok s) = continues s
  to_round (err e) = failed e

  -- What a round does with the candidate that it popped.
  unfoldable pub take_candidate : ExpansionCandidate F → Expansion F → Round F
  unfolding to_round expand
  take_candidate c s =
      if leb policy.max_nodes (length s.selected)
      then finished s
      else if ltb policy.max_radius c.distance
      then continues s
      else let chosen = record s { selected = s.selected ++ c.turn ∷ [] } in
        let next = next_distance c.distance in
        if ltb policy.max_radius next
        then continues chosen
        else to_round (expand c.distance next c.turn.id chosen)

  unfoldable pub round : Expansion F → Round F
  unfolding take_candidate
  round s = elim (pop fl s.frontier) [
    | none ↦ finished s
    | some (c, rest) ↦ take_candidate c (record s { frontier = rest })
  ]

  -- `none` means that the fuel ran out.
  unfoldable pub expand_loop : ℕ → Expansion F → Option (Result SlicerError (Expansion F))
  unfolding round
  expand_loop zero s = none
  expand_loop (suc fuel) s = elim (round s) [
    | finished t ↦ some (ok t)
    | continues t ↦ expand_loop fuel t
    | failed e ↦ some (err e)
  ]

  abbrev pub start : TurnSnapshot F → TurnId → Expansion F
  start anchor anchor_id = record {
    selected = [];
    visited = anchor_id ∷ [];
    frontier = Scoring.new fl anchor 0 policy ∷ [];
  }

  unfoldable pub select_turns : TurnSnapshot F → TurnId → Option (Result SlicerError (Expansion F))
  unfolding expand_loop
  select_turns anchor anchor_id = expand_loop (policy.max_nodes + 1) (start anchor anchor_id)

-- The default of `unwrap` is not met: every turn has a hash where it is called.
abbrev pub unwrap_hash : Option Str → Str
unwrap_hash none = []
unwrap_hash (some hash) = hash

module _ {F : Type 0} (cr : Crypto F) where
  -- Content hashes if all turns have one, and statistics otherwise.
  unfoldable pub graph_snapshot_hash : List (TurnSnapshot F) → List Edge → GraphSnapshotHash
  graph_snapshot_hash selected edges =
      if all has_content_hash selected
      then from_content_hashes cr
          (sort_by (λ a b. compare a.0 b.0)
            (map (λ t. (t.id, unwrap_hash t.content_hash)) selected))
          (length edges) schema_version_literal
      else from_stats cr (max_or_zero (map (λ t. t.created_at) selected)) (length selected)
          (length edges) schema_version_literal

module _ {F E : Type 0} (fl : Floats F) (cr : Crypto F) (store : GraphStore F E)
    (policy : SlicePolicyV1 F) (hmac_secret : Bytes) (now : ℤ) where
  -- From the selected turns to the bundle.
  unfoldable pub seal :
      TurnId → List (TurnSnapshot F) → Result SlicerError (AdmissibleEvidenceBundle F)
  unfolding from_store graph_snapshot_hash
  seal anchor_id selected = do
    edges ← from_store store (store.get_edges (turn_ids selected))
    let snapshot = graph_snapshot_hash cr selected edges
    let slice =
        new_with_secret cr hmac_secret anchor_id selected edges (policy_id policy)
          (params_hash fl cr policy) snapshot
    elim (from_verified cr now slice hmac_secret) [
      | ok bundle ↦ ok bundle
      | err e ↦ err (verification_error e)
    ]

  unfoldable pub finish :
      TurnId
      → Option (Result SlicerError (Expansion F))
      → Option (Result SlicerError (AdmissibleEvidenceBundle F))
  unfolding seal
  finish anchor_id none = none
  finish anchor_id (some (ok s)) = some (seal anchor_id s.selected)
  finish anchor_id (some (err e)) = some (err e)

  -- `slice`; `none` would mean that its loop does not end.
  unfoldable pub slice : TurnId → Option (Result SlicerError (AdmissibleEvidenceBundle F))
  unfolding finish select_turns
  slice anchor_id = elim (from_store store (store.get_turn anchor_id)) [
    | err e ↦ some (err e)
    | ok none ↦ some (err (anchor_not_found anchor_id))
    | ok (some anchor) ↦ finish anchor_id (select_turns fl store policy anchor anchor_id)
  ]
