-- ===== src/Samples/Queries.antt =====
-- The theorems on tokens, exported slices and content, at small inputs.
use mathlib.Core.List.Permᴰ
use admissibility_kernel.Base.{
  ℕ, ◌≡◌, ◌↔◌, refl, List, [], ◌∷◌, ◌++◌, true, false, some, Str, codes, ok, contains, Permᴰ, arith,
}
use admissibility_kernel.Base.Membership.{eq_of_Distinct}
use admissibility_kernel.Types.Turn.{TurnSnapshot}
use admissibility_kernel.Types.Edge.{Edge}
use admissibility_kernel.Types.Slice.{new_with_secret}
use admissibility_kernel.Types.Slice.Contents.{new_with_secret-perm}
use admissibility_kernel.Types.Slice.Token.{verify_hmac, mac_bytes, is_valid_format, bar}
use admissibility_kernel.Types.Slice.Token.Verify.{verify_hmac_iff}
use admissibility_kernel.Types.Slice.Token.Fields.{
  IsSeparated, canonical_string-injective, verify_hmac_shifted,
}
use admissibility_kernel.Types.Admissible.{from_verified}
use admissibility_kernel.Types.Admissible.Authority.{from_verified_iff, slice_mac}
use admissibility_kernel.CanonicalContent.{normalize_text, trim_start}
use admissibility_kernel.CanonicalContent.Normal.{normalize_text_lem}
use admissibility_kernel.Samples.{crypto, crypto_laws}
use admissibility_kernel.Samples.Graph.{turn_two, turn_four, edge, secret, now, bundle}

abbrev p : Str
p = codes "p"

abbrev snapshot : Str
snapshot = codes "g"

abbrev turns : List (TurnSnapshot ℕ)
turns = turn_two ∷ turn_four ∷ []

abbrev edges : List Edge
edges = edge 2 4 ∷ []

from_verified_iff_example : (from_verified crypto now bundle.slice secret ≡ ok bundle) ↔ (
    (is_valid_format bundle.slice.admissibility_token ≡ true)
    × (crypto.hex_decode bundle.slice.admissibility_token
        ≡ some (slice_mac crypto secret bundle.slice))
    × (bundle ≡ record { slice = bundle.slice; verified_at_unix_ms = now }))
from_verified_iff_example = from_verified_iff crypto crypto_laws now bundle.slice secret bundle

new_with_secret-perm_example :
    new_with_secret crypto secret 2 turns edges p p snapshot
    ≡ new_with_secret crypto secret 2 (turn_four ∷ turn_two ∷ []) edges p p snapshot
new_with_secret-perm_example =
    new_with_secret-perm crypto secret 2 p p snapshot
      (λ x y m n same.
        eq_of_Distinct (λ (t : TurnSnapshot ℕ). t.id) turns x y (refl, (refl, tt)) m n same)
      (Permᴰ.swap refl refl) (Permᴰ.refl edges)

verify_hmac_iff_example :
    (verify_hmac crypto (codes "00") secret (codes "s") 2 p p snapshot (codes "1") ≡ true) ↔ (
      crypto.hex_decode (codes "00")
      ≡ some (mac_bytes crypto secret (codes "s") 2 p p snapshot (codes "1")))
verify_hmac_iff_example =
    verify_hmac_iff crypto crypto_laws secret (codes "s") 2 p p snapshot (codes "1") (codes "00")

clean : IsSeparated crypto (codes "s") 2 p p snapshot (codes "1")
clean = record {
  slice_id_clean = refl;
  anchor_range = omega arith;
  policy_id_clean = refl;
  params_hash_clean = refl;
  snapshot_clean = refl;
  schema_clean = refl;
}

canonical_string-injective_example :
    (codes "s" ≡ codes "s")
    × (◌≡◌ {A = ℕ} 2 2)
    × (p ≡ p)
    × (p ≡ p)
    × (snapshot ≡ snapshot)
    × (codes "1" ≡ codes "1")
canonical_string-injective_example =
    canonical_string-injective crypto crypto_laws (codes "s") (codes "s") 2 2 p p p p snapshot
      snapshot (codes "1") (codes "1") clean clean refl

verify_hmac_shifted_example :
    verify_hmac crypto
      (codes "00")
      secret
      (codes "s")
      2
      (codes "p" ++ bar ∷ codes "q")
      (codes "r")
      snapshot
      (codes "1")
    ≡ verify_hmac crypto
        (codes "00")
        secret
        (codes "s")
        2
        (codes "p")
        (codes "q" ++ bar ∷ codes "r")
        snapshot
        (codes "1")
verify_hmac_shifted_example =
    verify_hmac_shifted crypto (codes "00") secret (codes "s") 2 (codes "p") (codes "q") (codes "r")
      snapshot (codes "1")

normalize_text_lem_example :
    (contains (normalize_text (codes " a\r\nb ")) 13 ≡ false)
    × (trim_start (normalize_text (codes " a\r\nb ")) ≡ normalize_text (codes " a\r\nb "))
    × (normalize_text (normalize_text (codes " a\r\nb ")) ≡ normalize_text (codes " a\r\nb "))
normalize_text_lem_example = normalize_text_lem (codes " a\r\nb ")
