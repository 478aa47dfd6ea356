-- ===== src/Types/Slice/Token/Format.antt =====
-- `is_valid_format` against `issue_hmac`.
use admissibility_kernel.Base.{
  ◌≡◌, refl, [], ◌∷◌, true, Str, Bytes, as_bytes, length, all, All, is_ascii_hexdigit, arith,
}
use admissibility_kernel.Crates.{Crypto, CryptoLaws}
use admissibility_kernel.Types.Turn.{TurnId}
use admissibility_kernel.Types.Slice.Token.{issue_hmac, is_valid_format, mac_bytes}
use admissibility_kernel.Types.Slice.Token.Verify.{length-mac_bytes, mac_bytes-IsOctets}

-- Hexadecimal digits take one byte each.
as_bytes-hexdigits :
    (s : Str) → All (λ c. is_ascii_hexdigit c ≡ true) s → length (as_bytes s) ≡ length s
unfolding as_bytes
as_bytes-hexdigits [] h = refl
as_bytes-hexdigits (c ∷ s) h = ground (arith, as_bytes-hexdigits s)

all-hexdigits : (s : Str) → All (λ c. is_ascii_hexdigit c ≡ true) s → all is_ascii_hexdigit s ≡ true
all-hexdigits [] h = refl
all-hexdigits (c ∷ s) h = ground (arith, all-hexdigits s)

-- An issued token has the format that is asked of one: 32 hexadecimal digits.
pub is_valid_format-issue_hmac :
    {F : Type 0} (cr : Crypto F) (laws : CryptoLaws cr) (secret : Bytes) (slice_id : Str)
    (anchor : TurnId) (policy_id params_hash snapshot schema : Str)
    → is_valid_format (issue_hmac cr secret slice_id anchor policy_id params_hash snapshot schema)
      ≡ true
unfolding is_valid_format issue_hmac
is_valid_format-issue_hmac cr laws secret s a p h g v =
    let mac = mac_bytes cr secret s a p h g v in
    let digits = laws.encode-hexdigits mac (mac_bytes-IsOctets cr laws secret s a p h g v) in
    ground (
      arith,
      as_bytes-hexdigits (cr.hex_encode mac) digits,
      all-hexdigits (cr.hex_encode mac) digits,
      laws.length-encode mac,
      length-mac_bytes cr laws secret s a p h g v,
    )
