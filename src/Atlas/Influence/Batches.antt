-- ===== src/Atlas/Influence/Batches.antt =====
-- The influence of turns on the slices of a batch, which list a turn at most once.
use admissibility_kernel.Base.{
  length-filter-le, empty-of_length, ℕ, suc, ◌+◌, ◌<◌, ◌≤◌, ◌^◌, ◌≡◌, refl, sym, ap, ◌∙◌, subst,
  List, [], ◌∷◌, Option, none, some, Str, Bytes, ok, All, length, filter, contains, Distinct,
  one_if, ◌==◌, arith,
}
use admissibility_kernel.Base.Int.{ℤ}
use admissibility_kernel.Base.Order.{Ord, nat_ord, list_ord}
use admissibility_kernel.Base.Set.{same}
use admissibility_kernel.Crates.{Floats, Crypto, CryptoLaws}
use admissibility_kernel.Types.Turn.{TurnId, TurnSnapshot}
use admissibility_kernel.Types.Slice.{SliceExport, turn_ids}
use admissibility_kernel.Types.Admissible.{AdmissibleEvidenceBundle, bundle_turn_ids}
use admissibility_kernel.Policy.V1.{SlicePolicyV1}
use admissibility_kernel.Store.{GraphStore}
use admissibility_kernel.Slicer.Invariant.{IsHonest}
use admissibility_kernel.Slicer.Bundle.{slice_sound}
use admissibility_kernel.Atlas.BatchSlicer.{BatchSliceResult, slice_all}
use admissibility_kernel.Atlas.BatchSlicer.Outcome.{
  AreSliced, slices_of, IsBatch, IsOutcome, slice_all_lem,
}
use admissibility_kernel.Atlas.Influence.{TurnInfluence, compute_influence, get_influence}
use admissibility_kernel.Atlas.Influence.Counting.{listings}
use admissibility_kernel.Atlas.Influence.Scores.{appearances}
use admissibility_kernel.Atlas.Influence.Bridges.{IsAnswer, get_influence_lem}

module _ {F : Type 0} where
  -- The identifiers have 128 bits.
  abbrev pub HasUuids : SliceExport F → Type 0
  HasUuids s = All (λ t. t.id < 2 ^ 128) s.turns

  -- The slices that hold the turn.
  abbrev pub holding : TurnId → List (SliceExport F) → List (SliceExport F)
  holding v = filter (λ s. contains (turn_ids s.turns) v)

module _ {F : Type 0} (cr : Crypto F) (laws : CryptoLaws cr) where
  uuid_string-injective :
      (u v : ℕ) → u < 2 ^ 128 → v < 2 ^ 128 → cr.uuid_string u ≡ cr.uuid_string v → u ≡ v
  uuid_string-injective u v small low e =
      let read : some u ≡ some v =
        sym (laws.parse-uuid_string u small)
        ∙ (ap cr.parse_uuid e ∙ laws.parse-uuid_string v low) in
      ground (arith, read)

  same-uuid_string :
      (u v : ℕ) → u < 2 ^ 128 → v < 2 ^ 128 → same (cr.uuid_string u) (cr.uuid_string v) ≡ (u == v)
  same-uuid_string u v small low =
      let o : Ord Str = list_ord in
      ground (
        arith,
        o.eq_of_cmp (cr.uuid_string u) (cr.uuid_string v),
        o.cmp_refl (cr.uuid_string u),
        uuid_string-injective u v small low,
      )

  listings-contains :
      (v : TurnId) (turns : List (TurnSnapshot F))
      → v < 2 ^ 128
      → All (λ t. t.id < 2 ^ 128) turns
      → Distinct (turn_ids turns)
      → listings cr (cr.uuid_string v) turns ≡ one_if (contains (turn_ids turns) v)
  listings-contains v [] small h d = refl
  listings-contains v (t ∷ turns) small h d =
      ground (arith, same-uuid_string v t.id small h.0, listings-contains v turns small h.1 d.1)

  appearances-holding :
      (v : TurnId) (slices : List (SliceExport F))
      → v < 2 ^ 128
      → All HasUuids slices
      → All (λ s. Distinct (turn_ids s.turns)) slices
      → appearances cr (cr.uuid_string v) slices ≡ length (holding v slices)
  appearances-holding v [] small h d = refl
  appearances-holding v (s ∷ slices) small h d =
      ground (
        arith,
        listings-contains v s.turns small h.0 d.0,
        appearances-holding v slices small h.1 d.1,
      )

module _ {F E : Type 0} (fl : Floats F) (cr : Crypto F) (laws : CryptoLaws cr)
    (store : GraphStore F E) (policy : SlicePolicyV1 F) (secret : Bytes) (now : ℤ) where
  AreSliced-Distinct :
      IsHonest store
      → policy.max_radius + 1 < 2 ^ 32
      → (anchors : List TurnId) (bundles : List (AdmissibleEvidenceBundle F))
      → AreSliced fl cr store policy secret now anchors bundles
      → All (λ s. Distinct (turn_ids s.turns)) (slices_of fl cr store policy secret now bundles)
        × (length (slices_of fl cr store policy secret now bundles) ≡ length anchors)
  unfolding bundle_turn_ids
  AreSliced-Distinct honest small [] [] h = (tt, refl)
  AreSliced-Distinct honest small (a ∷ anchors) (b ∷ bundles) h =
      let sound = slice_sound fl cr laws store policy secret now a b h.0 honest small in
      let rest = AreSliced-Distinct honest small anchors bundles h.1 in
      ((sound.1, rest.0), ap suc rest.1)
  AreSliced-Distinct _ _ _ _ h = absurd h

  -- What the scores answer for a turn of which some slices of the batch are.
  abbrev pub IsCounted :
      List TurnId → List (SliceExport F) → TurnId → Option (TurnInfluence F) → Type 0
  IsCounted anchors slices v none = holding v slices ≡ []
  IsCounted anchors slices v (some t) =
      (t.slice_count ≡ length (holding v slices))
      × (0 < t.slice_count)
      × (t.slice_count ≤ length anchors)

  answer-IsCounted :
      (anchors : List TurnId) (slices : List (SliceExport F)) (v : TurnId)
      (answer : Option (TurnInfluence F))
      → appearances cr (cr.uuid_string v) slices ≡ length (holding v slices)
      → length slices ≡ length anchors
      → length anchors < 2 ^ 32
      → IsAnswer fl cr slices (cr.uuid_string v) answer
      → IsCounted anchors slices v answer
  answer-IsCounted anchors slices v none all many few score =
      empty-of_length (holding v slices) (omega arith)
  answer-IsCounted anchors slices v (some t) all many few score =
      let le = length-filter-le (λ s. contains (turn_ids s.turns) v) slices in
      let exact : t.slice_count ≡ length (holding v slices) =
        omega (arith, score.slices_counted, le) in
      (exact, omega (arith, score.seen, exact), omega (arith, le, exact))

  -- For a batch of fewer than 2^32 anchors, under a policy whose radius plus one is below 2^32, from a
  -- store that returns the turns that it is asked for, with all identifiers below 2^128: the score of
  -- a turn counts exactly the slices that hold it, which are at least one and at most as many as the
  -- anchors, and a turn without a score is in no slice.
  pub slice_all-influence :
      (anchors : List TurnId) (snapshot_id anchor_set_hash : Str) (r : BatchSliceResult F)
      (v : TurnId)
      → slice_all fl cr store policy secret now anchors snapshot_id anchor_set_hash ≡ some (ok r)
      → IsHonest store
      → policy.max_radius + 1 < 2 ^ 32
      → length anchors < 2 ^ 32
      → All HasUuids r.slices
      → v < 2 ^ 128
      → IsCounted anchors r.slices v
          (get_influence (compute_influence fl cr r.slices) (cr.uuid_string v))
  slice_all-influence anchors snapshot_id anchor_set_hash r v done honest small few uuids low =
      let batch : IsBatch fl cr store policy secret now anchors snapshot_id anchor_set_hash r =
        subst (IsOutcome fl cr store policy secret now anchors snapshot_id anchor_set_hash) done
          (slice_all_lem fl cr store policy secret now anchors snapshot_id anchor_set_hash) in
      let once = AreSliced-Distinct honest small anchors batch.bundles batch.sliced in
      answer-IsCounted anchors r.slices v
        (get_influence (compute_influence fl cr r.slices) (cr.uuid_string v))
        (appearances-holding cr laws v r.slices low uuids
          (subst (All (λ s. Distinct (turn_ids s.turns))) (sym batch.slices) once.0))
        (ap length batch.slices ∙ once.1) few (get_influence_lem fl cr r.slices (cr.uuid_string v))
