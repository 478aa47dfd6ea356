-- ===== src/Types/Slice/Token.antt =====
-- `AdmissibilityToken` of src/types/slice.rs: HMAC-SHA256 of the slice's fields, cut to 16 bytes
-- and written in hexadecimal.
pub mod Verify
pub mod Fields
pub mod Format
use admissibility_kernel.Base.{
  ℕ, List, [], ◌∷◌, ◌++◌, Bool, true, false, ◌&&◌, Option, none, some, Str, Bytes, codes, as_bytes,
  length, take, all, is_ascii_hexdigit, ◌==◌, if◌then◌else◌,
}
use admissibility_kernel.Crates.{Crypto}
use admissibility_kernel.Types.Turn.{TurnId}

abbrev pub AdmissibilityToken : Type 0
AdmissibilityToken = Str

-- `TOKEN_VERSION`
abbrev pub token_version : Str
token_version = codes "admissibility_token_v2_hmac"

abbrev pub bar : ℕ
bar = b'|'

-- The loop `zip(…).fold(true, |acc, (a, b)| acc && (a == b))`.
unfoldable pub fold_equal : Bool → Bytes → Bytes → Bool
fold_equal acc (a ∷ s) (b ∷ t) = fold_equal (acc && a == b) s t
fold_equal acc [] t = acc
fold_equal acc (a ∷ s) [] = acc

module _ {F : Type 0} (cr : Crypto F) where
  unfoldable pub canonical_string : Str → TurnId → Str → Str → Str → Str → Str
  canonical_string slice_id anchor policy_id params_hash snapshot schema =
      slice_id
      ++ bar
        ∷ (cr.uuid_string anchor
            ++ bar
              ∷ (policy_id
                  ++ bar
                    ∷ (params_hash ++ bar ∷ (snapshot ++ bar ∷ (schema ++ bar ∷ token_version)))))

  -- The first 16 bytes of the HMAC.
  unfoldable pub mac_bytes : Bytes → Str → TurnId → Str → Str → Str → Str → Bytes
  mac_bytes secret slice_id anchor policy_id params_hash snapshot schema = take 16 (
      cr.hmac_sha256 secret
        (as_bytes (canonical_string slice_id anchor policy_id params_hash snapshot schema)))

  unfoldable pub issue_hmac : Bytes → Str → TurnId → Str → Str → Str → Str → AdmissibilityToken
  issue_hmac secret slice_id anchor policy_id params_hash snapshot schema =
      cr.hex_encode (mac_bytes secret slice_id anchor policy_id params_hash snapshot schema)

  unfoldable pub verify_hmac :
      AdmissibilityToken → Bytes → Str → TurnId → Str → Str → Str → Str → Bool
  verify_hmac token secret slice_id anchor policy_id params_hash snapshot schema =
      let expected = mac_bytes secret slice_id anchor policy_id params_hash snapshot schema in
      elim (cr.hex_decode token) [
        | none ↦ false
        | some token_bytes ↦
            if length token_bytes == 16 then fold_equal true token_bytes expected else false
      ]

unfoldable pub is_valid_format : AdmissibilityToken → Bool
is_valid_format token = length (as_bytes token) == 32 && all is_ascii_hexdigit token
