-- ===== src/Slicer/Sound.antt =====
-- What `slice` of src/slicer.rs promises of the bundle that it returns.
use admissibility_kernel.Base.{
  ◌≡◌, refl, ap, ◌∙◌, inl, inr, List, Option, none, some, Bytes, Result, ok, err, Option-cases,
  Result-cases, arith,
}
use admissibility_kernel.Base.Int.{ℤ}
use admissibility_kernel.Crates.{Floats, Crypto, CryptoLaws}
use admissibility_kernel.Types.Turn.{TurnId, TurnSnapshot}
use admissibility_kernel.Types.Edge.{Edge}
use admissibility_kernel.Types.Slice.{SliceExport, new_with_secret, turn_ids}
use admissibility_kernel.Types.Admissible.{AdmissibleEvidenceBundle}
use admissibility_kernel.Types.Admissible.Authority.{from_verified-new_with_secret}
use admissibility_kernel.Policy.V1.{SlicePolicyV1, policy_id, params_hash}
use admissibility_kernel.Store.{GraphStore}
use admissibility_kernel.Slicer.{
  SlicerError, store_error, Expansion, from_store, graph_snapshot_hash, select_turns, seal, finish,
  slice,
}

module _ {F E : Type 0} (fl : Floats F) (cr : Crypto F) (store : GraphStore F E)
    (policy : SlicePolicyV1 F) (secret : Bytes) (now : ℤ) (anchor_id : TurnId) where
  -- The slice that is exported for selected turns and their edges.
  abbrev pub exported : List (TurnSnapshot F) → List Edge → SliceExport F
  exported selected edges =
      new_with_secret cr secret anchor_id selected edges (policy_id policy)
        (params_hash fl cr policy) (graph_snapshot_hash cr selected edges)

  abbrev pub bundled : List (TurnSnapshot F) → List Edge → AdmissibleEvidenceBundle F
  bundled selected edges = record { slice = exported selected edges; verified_at_unix_ms = now }

  -- Where a bundle comes from.
  pub record Origin (b : AdmissibleEvidenceBundle F) : Type 0 where
    pub anchor : TurnSnapshot F
    pub loop_end : Expansion F
    pub edges : List Edge
    pub found : store.get_turn anchor_id ≡ ok (some anchor)
    pub ended : select_turns fl store policy anchor anchor_id ≡ some (ok loop_end)
    pub joined : store.get_edges (turn_ids loop_end.selected) ≡ ok edges
    pub is_bundled : b ≡ bundled loop_end.selected edges

  module _ (laws : CryptoLaws cr) where
    pub seal-of-edges :
        (selected : List (TurnSnapshot F)) (edges : List Edge)
        → store.get_edges (turn_ids selected) ≡ ok edges
        → seal fl cr store policy secret now anchor_id selected ≡ ok (bundled selected edges)
    unfolding seal
    seal-of-edges selected edges joined = ground (
      arith,
      joined,
      from_verified-new_with_secret cr laws now secret anchor_id selected edges (policy_id policy)
          (params_hash fl cr policy) (graph_snapshot_hash cr selected edges),
    )

    pub seal-of-error :
        (selected : List (TurnSnapshot F)) (e : E)
        → store.get_edges (turn_ids selected) ≡ err e
        → seal fl cr store policy secret now anchor_id selected
          ≡ err (store_error (store.error_string e))
    unfolding seal
    seal-of-error selected e bad = ground (arith, bad)

    finish-Origin :
        (anchor : TurnSnapshot F) (b : AdmissibleEvidenceBundle F)
        (r : Option (Result SlicerError (Expansion F)))
        → store.get_turn anchor_id ≡ ok (some anchor)
        → select_turns fl store policy anchor anchor_id ≡ r
        → finish fl cr store policy secret now anchor_id r ≡ some (ok b)
        → Origin b
    unfolding finish
    finish-Origin anchor b none found ended h = cc
    finish-Origin anchor b (some (err e)) found ended h = cc
    finish-Origin anchor b (some (ok s)) found ended h =
        elim (Result-cases (store.get_edges (turn_ids s.selected))) [
          | inl (edges, joined) ↦ record {
            anchor = anchor;
            loop_end = s;
            edges = edges;
            found = found;
            ended = ended;
            joined = joined;
            is_bundled = ground (arith, seal-of-edges s.selected edges joined);
          }
          | inr (e, bad) ↦ absurd (ground (arith, seal-of-error s.selected e bad))
        ]

    -- A bundle that `slice` returns is the export of what the loop selected.
    pub slice-Origin :
        (b : AdmissibleEvidenceBundle F)
        → slice fl cr store policy secret now anchor_id ≡ some (ok b)
        → Origin b
    unfolding slice from_store
    slice-Origin b h = elim (Result-cases (store.get_turn anchor_id)) [
      | inr (e, bad) ↦ absurd (ground (arith, bad))
      | inl (found, good) ↦ elim (Option-cases found) [
        | inl missing ↦ absurd (ground (arith, good, missing))
        | inr (anchor, there) ↦
            finish-Origin anchor b _ (good ∙ ap ok there) refl (ground (arith, good, there))
      ]
    ]
