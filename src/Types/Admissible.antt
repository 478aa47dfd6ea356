-- ===== src/Types/Admissible.antt =====
-- src/types/admissible.rs: a slice whose token was verified.
pub mod Authority
use admissibility_kernel.Base.{
  ℕ, List, Bool, Str, Bytes, Result, ok, err, codes, if◌then◌else◌, map,
}
use admissibility_kernel.Base.Int.{ℤ}
use admissibility_kernel.Crates.{Crypto}
use admissibility_kernel.Types.Turn.{TurnId}
use admissibility_kernel.Types.Slice
use admissibility_kernel.Types.Slice.{SliceExport, SliceFingerprint, GraphSnapshotHash, turn_ids}
use admissibility_kernel.Types.Slice.Token.{verify_hmac, is_valid_format}

pub data VerificationError : Type 0 where
  token_mismatch : VerificationError
  invalid_token_format : Str → VerificationError
  incomplete_provenance : Str → VerificationError

pub record AdmissibleEvidenceBundle (F : Type 0) : Type 0 where
  pub slice : SliceExport F
  pub verified_at_unix_ms : ℤ

module _ {F : Type 0} (cr : Crypto F) where
  -- `now` is what the clock says.
  unfoldable pub from_verified :
      ℤ → SliceExport F → Bytes → Result VerificationError (AdmissibleEvidenceBundle F)
  from_verified now slice hmac_secret =
      let is_valid =
        verify_hmac cr slice.admissibility_token hmac_secret slice.slice_id slice.anchor_turn_id
          slice.policy_id slice.policy_params_hash slice.graph_snapshot_hash slice.schema_version in
      if is_valid_format slice.admissibility_token
      then (if is_valid
          then ok (record { slice = slice; verified_at_unix_ms = now })
          else err token_mismatch)
      else err (invalid_token_format (codes "Token must be 32 hex characters"))

module _ {F : Type 0} where
  -- `turn_ids`
  unfoldable pub bundle_turn_ids : AdmissibleEvidenceBundle F → List TurnId
  bundle_turn_ids b = turn_ids b.slice.turns

  unfoldable pub is_turn_admissible : AdmissibleEvidenceBundle F → TurnId → Bool
  is_turn_admissible b id = Slice.is_turn_admissible b.slice id

  unfoldable pub filter_admissible : AdmissibleEvidenceBundle F → List TurnId → List TurnId
  filter_admissible b ids = Slice.filter_admissible b.slice ids

  unfoldable pub num_turns : AdmissibleEvidenceBundle F → ℕ
  num_turns b = Slice.num_turns b.slice

  unfoldable pub provenance :
      AdmissibleEvidenceBundle F → SliceFingerprint × GraphSnapshotHash × Str × Str × Str
  provenance b = (
    b.slice.slice_id, b.slice.graph_snapshot_hash, b.slice.policy_id, b.slice.policy_params_hash,
    b.slice.schema_version,
  )
