-- ===== src/CanonicalContent.antt =====
-- src/canonical_content.rs: the canonical form of a turn's text and its SHA-256 hash.
pub mod Normal
use Prim.Native.Nat.{bit_or, bit_xor}
use admissibility_kernel.Base.{
  ℕ, List, [], ◌∷◌, Bool, true, false, ◌||◌, ◌&&◌, Option, none, some, Str, Bytes, codes, as_bytes,
  length, leb, ◌==◌, if◌then◌else◌,
}
use admissibility_kernel.Crates.{Crypto}

-- `replace("\r\n", "\n")`: a scan from the left, over occurrences that do not overlap.
unfoldable pub replace_crlf : Str → Str
replace_crlf [] = []
replace_crlf (a ∷ []) = a ∷ []
replace_crlf (a ∷ b ∷ s) =
    let same = replace_crlf (b ∷ s) in
    let cut = replace_crlf s in if a == 13 && b == 10 then 10 ∷ cut else a ∷ same

-- `replace('\r', "\n")`
unfoldable pub replace_cr : Str → Str
replace_cr [] = []
replace_cr (a ∷ s) = (if a == 13 then 10 else a) ∷ replace_cr s

-- `char::is_whitespace`: the code points with the property White_Space.
unfoldable pub is_whitespace : ℕ → Bool
is_whitespace c =
    leb 9 c && leb c 13
    || (c == 32
        || (c == 0x85
            || (c == 0xa0
                || (c == 0x1680
                    || (leb 0x2000 c && leb c 0x200a
                        || (c == 0x2028
                            || (c == 0x2029 || (c == 0x202f || (c == 0x205f || c == 0x3000)))))))))

unfoldable pub trim_start : Str → Str
trim_start [] = []
trim_start (c ∷ s) = let rest = trim_start s in if is_whitespace c then rest else c ∷ s

-- A character is cut off if it and all that follow it are white space.
unfoldable pub trim_end : Str → Str
trim_end [] = []
trim_end (c ∷ s) = elim (trim_end s) [
  | [] ↦ if is_whitespace c then [] else c ∷ []
  | d ∷ t ↦ c ∷ d ∷ t
]

unfoldable pub trim : Str → Str
trim s = trim_end (trim_start s)

unfoldable pub normalize_text : Str → Str
normalize_text text = trim (replace_cr (replace_crlf text))

unfoldable pub canonical_content : Str → Bytes
canonical_content text = as_bytes (normalize_text text)

-- The loop `zip(…).fold(0u8, |acc, (a, b)| acc | (a ^ b))`.
unfoldable pub fold_difference : ℕ → Bytes → Bytes → ℕ
fold_difference acc (a ∷ s) (b ∷ t) = fold_difference (bit_or acc (bit_xor a b)) s t
fold_difference acc [] t = acc
fold_difference acc (a ∷ s) [] = acc

pub data HashValidation : Type 0 where
  valid : HashValidation
  mismatch : Str → Str → HashValidation
  missing : HashValidation

module _ {F : Type 0} (cr : Crypto F) where
  unfoldable pub compute_content_hash : Str → Str
  compute_content_hash text = cr.hex_encode (cr.sha256 (canonical_content text))

  unfoldable pub verify_content_hash : Str → Str → Bool
  verify_content_hash text expected =
      let computed = as_bytes (compute_content_hash text) in
      let wanted = as_bytes expected in
      if length computed == length wanted then fold_difference 0 computed wanted == 0 else false

  unfoldable pub validate_content_hash : Str → Option Str → HashValidation
  validate_content_hash text none = missing
  validate_content_hash text (some expected) =
      if verify_content_hash text expected
      then valid
      else mismatch expected (compute_content_hash text)
