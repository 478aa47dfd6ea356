-- ===== src/Atlas/BatchSlicer/Outcome.antt =====
-- What `slice_all` returns.
use admissibility_kernel.Base.{
  ◌≡◌, refl, sym, subst, ap, ◌∙◌, inl, inr, List, [], ◌∷◌, ◌++◌, map, Option, none, some, Str,
  Bytes, Result, ok, err, Result-cases,
}
use admissibility_kernel.Base.Int.{ℤ}
use admissibility_kernel.Crates.{Floats, Crypto}
use admissibility_kernel.Canonical.{canonical_hash_hex}
use admissibility_kernel.Types.Turn.{TurnId}
use admissibility_kernel.Types.Slice.{SliceExport}
use admissibility_kernel.Types.Admissible.{AdmissibleEvidenceBundle}
use admissibility_kernel.Policy.V1.{SlicePolicyV1}
use admissibility_kernel.Store.{GraphStore}
use admissibility_kernel.Slicer.{SlicerError, slice}
use admissibility_kernel.Slicer.Ends.{slice_returns}
use admissibility_kernel.Atlas.BatchSlicer.{
  BatchSliceResult, SliceRegistryEntry, Pushed, policy_value, new_entry, new_registry, push_slice,
  slice_loop, finish_batch, slice_all,
}

module _ {F E : Type 0} (fl : Floats F) (cr : Crypto F) (store : GraphStore F E)
    (policy : SlicePolicyV1 F) (secret : Bytes) (now : ℤ) where
  -- One anchor's slice.
  abbrev outcome : TurnId → Option (Result SlicerError (AdmissibleEvidenceBundle F))
  outcome = slice fl cr store policy secret now

  -- The bundles are the slices of the anchors, one for each and in their order.
  abbrev pub AreSliced : List TurnId → List (AdmissibleEvidenceBundle F) → Type 0
  AreSliced [] [] = Unit
  AreSliced (a ∷ anchors) (b ∷ bundles) =
      (slice fl cr store policy secret now a ≡ some (ok b)) × AreSliced anchors bundles
  AreSliced _ _ = ⊥

  -- The entries of the bundles.
  abbrev pub entries_of :
      Str → List TurnId → List (AdmissibleEvidenceBundle F) → List SliceRegistryEntry
  entries_of hash (a ∷ anchors) (b ∷ bundles) =
      new_entry cr hash a b ∷ entries_of hash anchors bundles
  entries_of hash _ _ = []

  abbrev pub slices_of : List (AdmissibleEvidenceBundle F) → List (SliceExport F)
  slices_of = map (λ b. b.slice)

  -- What the loop pushes is of the slices of all anchors.
  record IsPushed (hash : Str) (anchors : List TurnId) (pushed : Pushed F) : Type 0 where
    bundles : List (AdmissibleEvidenceBundle F)
    sliced : AreSliced anchors bundles
    slices : pushed.0 ≡ slices_of bundles
    entries : pushed.1 ≡ entries_of hash anchors bundles

  -- The anchor that fails, after those that do not.
  pub record IsFailed (anchors : List TurnId) (e : SlicerError) : Type 0 where
    pub front : List TurnId
    pub failed : TurnId
    pub back : List TurnId
    pub bundles : List (AdmissibleEvidenceBundle F)
    pub split : anchors ≡ front ++ failed ∷ back
    pub sliced : AreSliced front bundles
    pub failure : slice fl cr store policy secret now failed ≡ some (err e)

  -- Either all anchors are sliced or the first failure is returned.
  data Looped (hash : Str) (anchors : List TurnId)
      : Option (Result SlicerError (Pushed F)) → Type 0 where
    all_sliced :
        (pushed : Pushed F) → IsPushed hash anchors pushed → Looped hash anchors (some (ok pushed))
    one_failed : (e : SlicerError) → IsFailed anchors e → Looped hash anchors (some (err e))

  push_slice-Looped :
      (hash : Str) (a : TurnId) (anchors : List TurnId) (b : AdmissibleEvidenceBundle F)
      (later : Option (Result SlicerError (Pushed F)))
      → slice fl cr store policy secret now a ≡ some (ok b)
      → Looped hash anchors later
      → Looped hash
          (a ∷ anchors)
          (push_slice fl cr store policy secret now hash a later (some (ok b)))
  unfolding push_slice
  push_slice-Looped hash a anchors b later done (all_sliced pushed p) =
      all_sliced (b.slice ∷ pushed.0, new_entry cr hash a b ∷ pushed.1)
        (record {
          bundles = b ∷ p.bundles;
          sliced = (done, p.sliced);
          slices = ap (λ ss. b.slice ∷ ss) p.slices;
          entries = ap (λ es. new_entry cr hash a b ∷ es) p.entries;
        })
  push_slice-Looped hash a anchors b later done (one_failed e f) = one_failed e (record {
    front = a ∷ f.front;
    failed = f.failed;
    back = f.back;
    bundles = b ∷ f.bundles;
    split = ap (λ as_. a ∷ as_) f.split;
    sliced = (done, f.sliced);
    failure = f.failure;
  })

  stopped :
      (hash : Str) (a : TurnId) (anchors : List TurnId) (e : SlicerError)
      (later : Option (Result SlicerError (Pushed F)))
      → slice fl cr store policy secret now a ≡ some (err e)
      → Looped hash
          (a ∷ anchors)
          (push_slice fl cr store policy secret now hash a later (some (err e)))
  unfolding push_slice
  stopped hash a anchors e later failure = one_failed e (record {
    front = [];
    failed = a;
    back = anchors;
    bundles = [];
    split = refl;
    sliced = tt;
    failure = failure;
  })

  slice_loop-Looped :
      (hash : Str) (anchors : List TurnId)
      → Looped hash anchors (slice_loop fl cr store policy secret now hash anchors)
  unfolding slice_loop
  slice_loop-Looped hash [] =
      all_sliced ([], []) (record { bundles = []; sliced = tt; slices = refl; entries = refl })
  slice_loop-Looped hash (a ∷ anchors) =
      let later = slice_loop fl cr store policy secret now hash anchors in
      let (r, ends) = slice_returns fl cr store policy secret now a in
      let step = push_slice fl cr store policy secret now hash a later in
      elim (Result-cases r) [
        | inl (b, good) ↦
            let done = ends ∙ ap some good in
            subst (λ o. Looped hash (a ∷ anchors) (step o)) (sym done)
              (push_slice-Looped hash a anchors b later done (slice_loop-Looped hash anchors))
        | inr (e, bad) ↦
            let failure = ends ∙ ap some bad in
            subst (λ o. Looped hash (a ∷ anchors) (step o)) (sym failure)
              (stopped hash a anchors e later failure)
      ]

  -- The result is of the slices of all anchors, in their order.
  pub record IsBatch (anchors : List TurnId) (snapshot_id anchor_set_hash : Str)
      (r : BatchSliceResult F) : Type 0 where
    pub bundles : List (AdmissibleEvidenceBundle F)
    pub sliced : AreSliced anchors bundles
    pub slices : r.slices ≡ slices_of bundles
    pub registry : r.registry ≡ new_registry cr (entries_of r.policy_params_hash anchors bundles)
    pub of_snapshot : r.snapshot_id ≡ snapshot_id
    pub of_anchors : r.anchor_set_hash ≡ anchor_set_hash
    pub of_policy : r.policy_id ≡ policy.version
    pub of_params : r.policy_params_hash ≡ canonical_hash_hex cr (policy_value policy)

  -- What `slice_all` may return.
  abbrev pub IsOutcome :
      List TurnId → Str → Str → Option (Result SlicerError (BatchSliceResult F)) → Type 0
  IsOutcome anchors snapshot_id anchor_set_hash none = ⊥
  IsOutcome anchors snapshot_id anchor_set_hash (some (ok r)) =
      IsBatch anchors snapshot_id anchor_set_hash r
  IsOutcome anchors snapshot_id anchor_set_hash (some (err e)) = IsFailed anchors e

  finish_batch-IsOutcome :
      (anchors : List TurnId) (snapshot_id anchor_set_hash : Str)
      (o : Option (Result SlicerError (Pushed F)))
      → Looped (canonical_hash_hex cr (policy_value policy)) anchors o
      → IsOutcome anchors snapshot_id anchor_set_hash (
          finish_batch fl cr store policy secret now snapshot_id anchor_set_hash
            (canonical_hash_hex cr (policy_value policy))
            o)
  unfolding finish_batch
  finish_batch-IsOutcome anchors snapshot_id anchor_set_hash o (all_sliced pushed p) = record {
    bundles = p.bundles;
    sliced = p.sliced;
    slices = p.slices;
    registry = ap (new_registry cr) p.entries;
    of_snapshot = refl;
    of_anchors = refl;
    of_policy = refl;
    of_params = refl;
  }
  finish_batch-IsOutcome anchors snapshot_id anchor_set_hash o (one_failed e f) = f

  -- `slice_all` returns. Either all anchors are sliced, and the slices and the entries of the
  -- registry are theirs, in their order; or the error is that of the first anchor that fails.
  pub slice_all_lem :
      (anchors : List TurnId) (snapshot_id anchor_set_hash : Str)
      → IsOutcome anchors snapshot_id anchor_set_hash
          (slice_all fl cr store policy secret now anchors snapshot_id anchor_set_hash)
  unfolding slice_all
  slice_all_lem anchors snapshot_id anchor_set_hash =
      finish_batch-IsOutcome anchors snapshot_id anchor_set_hash _
        (slice_loop-Looped (canonical_hash_hex cr (policy_value policy)) anchors)
