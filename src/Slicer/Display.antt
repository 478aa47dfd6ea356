-- ===== src/Slicer/Display.antt =====
-- The messages of the errors of src/slicer.rs and src/types/admissible.rs (`Display`).
use admissibility_kernel.Base.{Str, codes, ◌++◌}
use admissibility_kernel.Crates.{Crypto}
use admissibility_kernel.Types.Admissible.{
  VerificationError, token_mismatch, invalid_token_format, incomplete_provenance,
}
use admissibility_kernel.Slicer.{SlicerError, anchor_not_found, store_error, verification_error}

unfoldable pub verification_error_string : VerificationError → Str
verification_error_string token_mismatch =
    codes "Admissibility token verification failed: token mismatch"
verification_error_string (invalid_token_format s) =
    codes "Admissibility token has invalid format: " ++ s
verification_error_string (incomplete_provenance s) =
    codes "Slice provenance incomplete: missing " ++ s

unfoldable pub slicer_error_string : {F : Type 0} → Crypto F → SlicerError → Str
unfolding verification_error_string
slicer_error_string cr (anchor_not_found id) = codes "Anchor turn not found: " ++ cr.uuid_string id
slicer_error_string cr (store_error s) = codes "Store error: " ++ s
slicer_error_string cr (verification_error e) =
    codes "Internal verification error: " ++ verification_error_string e
