-- ===== src/Atlas/BatchSlicer/Signed.antt =====
-- The slices that `slice_all` returns are signed.
use admissibility_kernel.Base.{◌≡◌, sym, subst, ap, List, [], ◌∷◌, some, Str, Bytes, ok, true, All}
use admissibility_kernel.Base.Int.{ℤ}
use admissibility_kernel.Crates.{Floats, Crypto, CryptoLaws}
use admissibility_kernel.Canonical.{canonical_hash_hex}
use admissibility_kernel.Types.Turn.{TurnId}
use admissibility_kernel.Types.Slice.{SliceExport, verify_token, new_with_secret}
use admissibility_kernel.Types.Admissible.{AdmissibleEvidenceBundle}
use admissibility_kernel.Policy.V1.{SlicePolicyV1, params_hash}
use admissibility_kernel.Store.{GraphStore}
use admissibility_kernel.Slicer.{slice}
use admissibility_kernel.Slicer.Bundle.{slice_verifies}
use admissibility_kernel.Slicer.Sound.{slice-Origin}
use admissibility_kernel.Atlas.BatchSlicer.{BatchSliceResult, policy_value, slice_all}
use admissibility_kernel.Atlas.BatchSlicer.Outcome.{
  AreSliced, slices_of, IsBatch, IsOutcome, slice_all_lem,
}

module _ {F E : Type 0} (fl : Floats F) (cr : Crypto F) (laws : CryptoLaws cr)
    (store : GraphStore F E) (policy : SlicePolicyV1 F) (secret : Bytes) (now : ℤ) where
  -- The slice verifies, and carries the hash of the quantised parameters.
  abbrev pub IsSigned : SliceExport F → Type 0
  IsSigned s = (verify_token cr s secret ≡ true) × (s.policy_params_hash ≡ params_hash fl cr policy)

  slice-IsSigned :
      (a : TurnId) (b : AdmissibleEvidenceBundle F)
      → slice fl cr store policy secret now a ≡ some (ok b)
      → IsSigned b.slice
  unfolding new_with_secret
  slice-IsSigned a b done =
      let o = slice-Origin fl cr store policy secret now a laws b done in
      (
        slice_verifies fl cr laws store policy secret now a b done,
        ap (λ x. x.slice.policy_params_hash) o.is_bundled,
      )

  All-IsSigned :
      (anchors : List TurnId) (bundles : List (AdmissibleEvidenceBundle F))
      → AreSliced fl cr store policy secret now anchors bundles
      → All IsSigned (slices_of fl cr store policy secret now bundles)
  All-IsSigned [] [] h = tt
  All-IsSigned (a ∷ anchors) (b ∷ bundles) h =
      (slice-IsSigned a b h.0, All-IsSigned anchors bundles h.1)
  All-IsSigned _ _ h = absurd h

  -- Every slice of a batch verifies under the secret and carries the hash of the quantised
  -- parameters of the policy; the batch carries the hash of the policy itself.
  pub slice_all-IsSigned :
      (anchors : List TurnId) (snapshot_id anchor_set_hash : Str) (r : BatchSliceResult F)
      → slice_all fl cr store policy secret now anchors snapshot_id anchor_set_hash ≡ some (ok r)
      → All IsSigned r.slices × (r.policy_params_hash ≡ canonical_hash_hex cr (policy_value policy))
  slice_all-IsSigned anchors snapshot_id anchor_set_hash r done =
      let batch : IsBatch fl cr store policy secret now anchors snapshot_id anchor_set_hash r =
        subst (IsOutcome fl cr store policy secret now anchors snapshot_id anchor_set_hash) done
          (slice_all_lem fl cr store policy secret now anchors snapshot_id anchor_set_hash) in
      (
        subst (All IsSigned) (sym batch.slices) (All-IsSigned anchors batch.bundles batch.sliced),
        batch.of_params,
      )
