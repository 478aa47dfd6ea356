-- ===== src/Types/Admissible/Authority.antt =====
-- Who gets a bundle: `from_verified` against the tokens that the kernel issues.
use admissibility_kernel.Base.{◌≡◌, ◌↔◌, List, true, some, Str, Bytes, ok, arith}
use admissibility_kernel.Base.Int.{ℤ}
use admissibility_kernel.Crates.{Crypto, CryptoLaws}
use admissibility_kernel.Types.Turn.{TurnId, TurnSnapshot}
use admissibility_kernel.Types.Edge.{Edge}
use admissibility_kernel.Types.Slice.{SliceExport, GraphSnapshotHash, new_with_secret}
use admissibility_kernel.Types.Slice.Token.{is_valid_format, mac_bytes}
use admissibility_kernel.Types.Slice.Token.Verify.{verify_hmac-issue_hmac, verify_hmac_iff}
use admissibility_kernel.Types.Slice.Token.Format.{is_valid_format-issue_hmac}
use admissibility_kernel.Types.Admissible.{AdmissibleEvidenceBundle, from_verified}

-- The token bytes that the kernel computes for a slice's own fields.
abbrev pub slice_mac : {F : Type 0} → Crypto F → Bytes → SliceExport F → Bytes
slice_mac cr secret s =
    mac_bytes cr secret s.slice_id s.anchor_turn_id s.policy_id s.policy_params_hash
      s.graph_snapshot_hash s.schema_version

module _ {F : Type 0} (cr : Crypto F) (laws : CryptoLaws cr) where
  -- A slice that the kernel exports under a secret is verified under that secret, and the bundle
  -- holds that slice.
  pub from_verified-new_with_secret :
      (now : ℤ) (secret : Bytes) (anchor : TurnId) (turns : List (TurnSnapshot F))
      (edges : List Edge) (policy_id params_hash : Str) (snapshot : GraphSnapshotHash)
      → let s = new_with_secret cr secret anchor turns edges policy_id params_hash snapshot in
        from_verified cr now s secret ≡ ok (record { slice = s; verified_at_unix_ms = now })
  unfolding from_verified new_with_secret
  from_verified-new_with_secret now secret anchor turns edges policy_id params_hash snapshot =
      let s = new_with_secret cr secret anchor turns edges policy_id params_hash snapshot in
      ground (
        arith,
        verify_hmac-issue_hmac cr laws secret s.slice_id anchor policy_id params_hash snapshot
            s.schema_version,
        is_valid_format-issue_hmac cr laws secret s.slice_id anchor policy_id params_hash snapshot
            s.schema_version,
      )

  -- `from_verified` yields a bundle exactly if the token has the asked format and decodes to the
  -- first 16 bytes of the HMAC of the slice's own fields; the bundle holds the slice as it came,
  -- with the clock's time.
  pub from_verified_iff :
      (now : ℤ) (s : SliceExport F) (secret : Bytes) (b : AdmissibleEvidenceBundle F)
      → (from_verified cr now s secret ≡ ok b) ↔ (
          (is_valid_format s.admissibility_token ≡ true)
          × (cr.hex_decode s.admissibility_token ≡ some (slice_mac cr secret s))
          × (b ≡ record { slice = s; verified_at_unix_ms = now }))
  unfolding from_verified
  from_verified_iff now s secret b = ground (
    arith,
    verify_hmac_iff cr laws secret s.slice_id s.anchor_turn_id s.policy_id s.policy_params_hash
        s.graph_snapshot_hash s.schema_version s.admissibility_token,
  )
