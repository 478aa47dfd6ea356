-- ===== src/Types/Slice/Token/Verify.antt =====
-- What a token proves: `verify_hmac` against `issue_hmac`.
use admissibility_kernel.Base.{
  ℕ, zero, suc, ◌≤◌, ◌≡◌, refl, [], ◌∷◌, true, false, some, Str, Bytes, as_bytes, length, take, ◌↔◌,
  inl, inr, Option-cases, arith,
}
use admissibility_kernel.Crates.{Crypto, CryptoLaws, IsOctets}
use admissibility_kernel.Types.Turn.{TurnId}
use admissibility_kernel.Types.Slice.Token.{
  AdmissibilityToken, fold_equal, canonical_string, mac_bytes, issue_hmac, verify_hmac,
}

fold_equal-false : (s t : Bytes) → fold_equal false s t ≡ false
unfolding fold_equal
fold_equal-false [] t = refl
fold_equal-false (a ∷ s) [] = refl
fold_equal-false (a ∷ s) (b ∷ t) = fold_equal-false s t

fold_equal_refl : (s : Bytes) → fold_equal true s s ≡ true
unfolding fold_equal
fold_equal_refl [] = refl
fold_equal_refl (a ∷ s) = ground (arith, fold_equal_refl s)

eq_of_fold_equal : (s t : Bytes) → length s ≡ length t → fold_equal true s t ≡ true → s ≡ t
unfolding fold_equal
eq_of_fold_equal [] [] l h = refl
eq_of_fold_equal [] (b ∷ t) l h = absurd (omega arith)
eq_of_fold_equal (a ∷ s) [] l h = absurd (omega arith)
eq_of_fold_equal (a ∷ s) (b ∷ t) l h = ground (arith, fold_equal-false s t, eq_of_fold_equal s t)

length-take_of_le : (n : ℕ) (xs : Bytes) → n ≤ length xs → length (take n xs) ≡ n
length-take_of_le zero xs h = refl
length-take_of_le (suc n) [] h = absurd (omega arith)
length-take_of_le (suc n) (x ∷ xs) h = omega (arith, length-take_of_le n xs)

take-IsOctets : (n : ℕ) (xs : Bytes) → IsOctets xs → IsOctets (take n xs)
take-IsOctets zero xs h = tt
take-IsOctets (suc n) [] h = tt
take-IsOctets (suc n) (x ∷ xs) h = (h.0, take-IsOctets n xs h.1)

module _ {F : Type 0} (cr : Crypto F) (laws : CryptoLaws cr) (secret : Bytes) (slice_id : Str)
    (anchor : TurnId) (policy_id params_hash snapshot schema : Str) where
  abbrev mac : Bytes
  mac = mac_bytes cr secret slice_id anchor policy_id params_hash snapshot schema

  pub length-mac_bytes : length mac ≡ 16
  unfolding mac_bytes
  length-mac_bytes =
      let message =
        as_bytes (canonical_string cr slice_id anchor policy_id params_hash snapshot schema) in
      length-take_of_le 16 (cr.hmac_sha256 secret message)
        (omega (arith, laws.length-hmac secret message))

  pub mac_bytes-IsOctets : IsOctets mac
  unfolding mac_bytes
  mac_bytes-IsOctets =
      let message =
        as_bytes (canonical_string cr slice_id anchor policy_id params_hash snapshot schema) in
      take-IsOctets 16 (cr.hmac_sha256 secret message) (laws.hmac-IsOctets secret message)

  -- `verify_hmac` accepts a token for a secret and six fields exactly when the token
  -- decodes, from hexadecimal, to the first 16 bytes of their HMAC, for crates that obey `CryptoLaws`.
  pub verify_hmac_iff :
      (token : AdmissibilityToken)
      → (verify_hmac cr token secret slice_id anchor policy_id params_hash snapshot schema ≡ true)
        ↔ (cr.hex_decode token ≡ some mac)
  unfolding verify_hmac
  verify_hmac_iff token = elim (Option-cases (cr.hex_decode token)) [
    | inl bad ↦ ground (arith, bad)
    | inr (bytes, good) ↦
        ground (arith, good, length-mac_bytes, eq_of_fold_equal bytes mac, fold_equal_refl mac)
  ]

  -- A token that the kernel issues passes its own verification.
  pub verify_hmac-issue_hmac :
      verify_hmac cr
        (issue_hmac cr secret slice_id anchor policy_id params_hash snapshot schema)
        secret
        slice_id
        anchor
        policy_id
        params_hash
        snapshot
        schema
      ≡ true
  unfolding issue_hmac
  verify_hmac-issue_hmac =
      (verify_hmac_iff (cr.hex_encode mac)).1 (laws.decode-encode mac mac_bytes-IsOctets)
