-- ===== src/Types/Slice/Token/Fields.antt =====
-- The text that is signed: it determines the six fields if none of them holds a `|`, and not in
-- general.
use mathlib.Core.List.{append_assoc}
use admissibility_kernel.Base.{◌<◌, ◌^◌}
use admissibility_kernel.Base.{ℕ, ◌≡◌, ap, [], ◌∷◌, ◌++◌, false, Str, Bytes, contains, arith}
use admissibility_kernel.Crates.{Crypto, CryptoLaws}
use admissibility_kernel.Types.Turn.{TurnId}
use admissibility_kernel.Types.Slice.Token.{
  AdmissibilityToken, bar, canonical_string, mac_bytes, verify_hmac,
}

abbrev pub HasNoBar : Str → Type 0
HasNoBar s = contains s bar ≡ false

-- What stands before the first `|` and after it.
split-bar :
    (s t u v : Str) → HasNoBar s → HasNoBar t → s ++ bar ∷ u ≡ t ++ bar ∷ v → (s ≡ t) × (u ≡ v)
split-bar [] [] u v h k e = ground arith
split-bar [] (b ∷ t) u v h k e = absurd (ground arith)
split-bar (a ∷ s) [] u v h k e = absurd (ground arith)
split-bar (a ∷ s) (b ∷ t) u v h k e = ground (arith, split-bar s t u v)

module _ {F : Type 0} (cr : Crypto F) where
  uuid_string-injective :
      CryptoLaws cr
      → (u v : ℕ) → u < 2 ^ 128
      → v < 2 ^ 128
      → cr.uuid_string u ≡ cr.uuid_string v
      → u ≡ v
  uuid_string-injective laws u v h k e =
      ground (arith, laws.parse-uuid_string u h, laws.parse-uuid_string v k, ap cr.parse_uuid e)

  -- The six fields of a claim, none of the texts with a `|`.
  pub record IsSeparated (slice_id : Str) (anchor : TurnId)
      (policy_id params_hash snapshot schema : Str) : Type 0 where
    pub slice_id_clean : HasNoBar slice_id
    pub anchor_range : anchor < 2 ^ 128
    pub policy_id_clean : HasNoBar policy_id
    pub params_hash_clean : HasNoBar params_hash
    pub snapshot_clean : HasNoBar snapshot
    pub schema_clean : HasNoBar schema

  -- Two claims with one signed text are one claim, if no text of theirs holds a `|`.
  pub canonical_string-injective :
      CryptoLaws cr
      → (s s' : Str) (a a' : TurnId) (p p' h h' g g' v v' : Str) → IsSeparated s a p h g v
      → IsSeparated s' a' p' h' g' v'
      → canonical_string cr s a p h g v ≡ canonical_string cr s' a' p' h' g' v'
      → (s ≡ s') × (a ≡ a') × (p ≡ p') × (h ≡ h') × (g ≡ g') × (v ≡ v')
  unfolding canonical_string
  canonical_string-injective laws s s' a a' p p' h h' g g' v v' c c' e =
      let (e1, r1) = split-bar s s' _ _ c.slice_id_clean c'.slice_id_clean e in
      let (e2, r2) =
        split-bar (cr.uuid_string a) (cr.uuid_string a') _ _ (laws.uuid_string-no_bar a)
          (laws.uuid_string-no_bar a') r1 in
      let (e3, r3) = split-bar p p' _ _ c.policy_id_clean c'.policy_id_clean r2 in
      let (e4, r4) = split-bar h h' _ _ c.params_hash_clean c'.params_hash_clean r3 in
      let (e5, r5) = split-bar g g' _ _ c.snapshot_clean c'.snapshot_clean r4 in
      let (e6, _) = split-bar v v' _ _ c.schema_clean c'.schema_clean r5 in
      (e1, uuid_string-injective laws a a' c.anchor_range c'.anchor_range e2, e3, e4, e5, e6)

  canonical_string_shifted :
      (s : Str) (a : TurnId) (p q r g v : Str)
      → canonical_string cr s a (p ++ bar ∷ q) r g v ≡ canonical_string cr s a p (q ++ bar ∷ r) g v
  unfolding canonical_string
  canonical_string_shifted s a p q r g v = simp append_assoc

  mac_bytes_shifted :
      (secret : Bytes) (s : Str) (a : TurnId) (p q r g v : Str)
      → mac_bytes cr secret s a (p ++ bar ∷ q) r g v ≡ mac_bytes cr secret s a p (q ++ bar ∷ r) g v
  unfolding mac_bytes
  mac_bytes_shifted secret s a p q r g v = rw (canonical_string_shifted s a p q r g v)

  -- A `|` may be moved from one field to the next: `verify_hmac` gives one answer, for every token
  -- and secret, to the policy id `p|q` with the parameter hash `r` and to `p` with `q|r`.
  pub verify_hmac_shifted :
      (token : AdmissibilityToken) (secret : Bytes) (s : Str) (a : TurnId) (p q r g v : Str)
      → verify_hmac cr token secret s a (p ++ bar ∷ q) r g v
        ≡ verify_hmac cr token secret s a p (q ++ bar ∷ r) g v
  unfolding verify_hmac
  verify_hmac_shifted token secret s a p q r g v =
      ground (arith, mac_bytes_shifted secret s a p q r g v)
