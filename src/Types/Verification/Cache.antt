-- ===== src/Types/Verification/Cache.antt =====
-- What the cache of src/types/verification.rs does to the verdicts.
use mathlib.Core.List.{append_assoc}
use admissibility_kernel.Base.{
  ℕ, ◌≡◌, refl, sym, ap, ap₂, subst, ◌∙◌, inl, inr, ⊎_elim, List, [], ◌∷◌, ◌++◌, map, Memᴰ, Bool,
  true, false, Option, none, some, Str, Bytes, as_bytes, as_bytes-append, Bool-cases, Option-cases,
  arith,
}
use admissibility_kernel.Crates.{Crypto, Lru, LruLaws}
use admissibility_kernel.Types.Verification.{
  VerificationMode, local_secret, cached, Claim, VerificationResult, TokenVerifier, mode_secret,
  compute, check_hmac, cache_size, new, peek_cache, put_cache, verify_token, clear_cache,
}

module _ {F : Type 0} (cr : Crypto F) where
  -- Claims with one key have one verdict.
  abbrev pub NoClash : Bytes → List Claim → Type 0
  NoClash secret ps =
      (p q : Claim)
      → Memᴰ p ps
      → Memᴰ q ps
      → compute cr p ≡ compute cr q
      → check_hmac cr secret p ≡ check_hmac cr secret q

module _ {F C : Type 0} (cr : Crypto F) (lru : Lru C) where
  -- The verifier's calls one after the other.
  unfoldable pub verify_all : TokenVerifier C → List Claim → List VerificationResult
  verify_all v [] = []
  verify_all v (p ∷ ps) = let step = verify_token lru cr v p in step.0 ∷ verify_all step.1 ps

module _ {F C : Type 0} (cr : Crypto F) (lru : Lru C) (laws : LruLaws lru) where
  -- A cached verdict was computed for a claim of `seen` with that key.
  abbrev IsFilled : Bytes → List Claim → Option C → Type 0
  IsFilled secret seen cache =
      (k : ℕ) (b : Bool)
      → peek_cache lru cache k ≡ some b
      → (p : Claim) × Memᴰ p seen × (compute cr p ≡ k) × (b ≡ check_hmac cr secret p)

  put-IsFilled :
      (secret : Bytes) (seen : List Claim) (cache : Option C) (p : Claim)
      → Memᴰ p seen
      → IsFilled secret seen cache
      → IsFilled secret seen (put_cache lru cache (compute cr p) (check_hmac cr secret p))
  put-IsFilled secret seen none p there filled k b h = cc
  put-IsFilled secret seen (some c) p there filled k b h =
      ⊎_elim (λ (e, f). (p, there, sym e, f)) (filled k b)
        (laws.peek-put_old c (compute cr p) k (check_hmac cr secret p) b h)

  -- One call: the verdict is that of the full check, and the cache stays filled.
  verify_token-IsFilled :
      (seen : List Claim) (v : TokenVerifier C) (p : Claim)
      → Memᴰ p seen
      → NoClash cr (mode_secret v.mode) seen
      → IsFilled (mode_secret v.mode) seen v.cache
      → let step = verify_token lru cr v p in
        (step.0.is_valid ≡ check_hmac cr (mode_secret v.mode) p)
        × (step.1.mode ≡ v.mode)
        × IsFilled (mode_secret v.mode) seen step.1.cache
  unfolding verify_token
  verify_token-IsFilled seen v p there clash filled =
      elim (Option-cases (peek_cache lru v.cache (compute cr p))) [
        | inr (b, hit) ↦
            let (q, q_there, key, verdict) = filled (compute cr p) b hit in
            let same = clash q p q_there there key in ground (arith, hit, verdict, same, filled)
        | inl miss ↦
            let after = put-IsFilled (mode_secret v.mode) seen v.cache p there filled in
            ground (arith, miss, after)
      ]

  verify_all-filled :
      (seen ps : List Claim) (v : TokenVerifier C)
      → ((p : Claim) → Memᴰ p ps → Memᴰ p seen)
      → NoClash cr (mode_secret v.mode) seen
      → IsFilled (mode_secret v.mode) seen v.cache
      → map (λ r. r.is_valid) (verify_all cr lru v ps) ≡ map (check_hmac cr (mode_secret v.mode)) ps
  unfolding verify_all
  verify_all-filled seen [] v sub clash filled = refl
  verify_all-filled seen (p ∷ ps) v sub clash filled =
      let (verdict, mode, after) =
        verify_token-IsFilled seen v p (sub p (Memᴰ.head refl)) clash filled in
      let next = (verify_token lru cr v p).1 in
      let secret = ap mode_secret mode in
      let rest =
        verify_all-filled seen ps next (λ q m. sub q (Memᴰ.tail m))
          (subst (λ s. NoClash cr s seen) (sym secret) clash)
          (subst (λ s. IsFilled s seen next.cache) (sym secret) after) in
      ap₂ (λ b bs. b ∷ bs) verdict (rest ∙ ap (λ s. map (check_hmac cr s) ps) secret)

  new-IsFilled :
      (mode : VerificationMode) (seen : List Claim)
      → IsFilled (mode_secret (new lru mode).mode) seen (new lru mode).cache
  unfolding new
  new-IsFilled (local_secret secret) seen k b h = cc
  new-IsFilled (cached secret config) seen k b h = absurd (
      ⊎_elim (λ on. ground (arith, on, laws.peek-new (cache_size config.max_entries) k))
        (λ off. ground (arith, off)) (Bool-cases config.enabled))

  new-mode : (mode : VerificationMode) → (new lru mode).mode ≡ mode
  unfolding new
  new-mode (local_secret secret) = refl
  new-mode (cached secret config) = refl

  -- From a new verifier, whatever its mode, each verdict on a list of claims is the verdict of the
  -- full HMAC check, if claims of the list with one cache key have one verdict.
  pub verify_all-new :
      (mode : VerificationMode) (ps : List Claim)
      → NoClash cr (mode_secret mode) ps
      → map (λ r. r.is_valid) (verify_all cr lru (new lru mode) ps)
        ≡ map (check_hmac cr (mode_secret mode)) ps
  verify_all-new mode ps clash =
      let secret = ap mode_secret (new-mode mode) in
      verify_all-filled ps ps (new lru mode) (λ p m. m)
        (subst (λ s. NoClash cr s ps) (sym secret) clash) (new-IsFilled mode ps)
      ∙ ap (λ s. map (check_hmac cr s) ps) secret

  -- A repeated call gets the verdict of the first, from the cache if there is one.
  pub verify_token_again :
      (v : TokenVerifier C) (p : Claim)
      → let first = verify_token lru cr v p in
        let again = verify_token lru cr first.1 p in
        (again.0.is_valid ≡ first.0.is_valid)
        × ((c : C) → v.cache ≡ some c → again.0.cache_hit ≡ true)
  unfolding verify_token
  verify_token_again v p = elim (Option-cases v.cache) [
    | inl off ↦ ground (arith, off)
    | inr (c, on) ↦ elim (Option-cases (lru.peek (compute cr p) c)) [
      | inl miss ↦ ground (
        arith,
        on,
        miss,
        laws.peek-put_same c (compute cr p) (check_hmac cr (mode_secret v.mode) p),
      )
      | inr (b, hit) ↦ ground (arith, on, hit)
    ]
  ]

  -- After `clear_cache` no verdict comes from the cache.
  pub verify_token-clear_cache :
      (v : TokenVerifier C) (p : Claim)
      → (verify_token lru cr (clear_cache lru v) p).0
        ≡ record { is_valid = check_hmac cr (mode_secret v.mode) p; cache_hit = false }
  unfolding verify_token clear_cache
  verify_token-clear_cache v p = elim (Option-cases v.cache) [
    | inl off ↦ ground (arith, off)
    | inr (c, on) ↦ ground (arith, on, laws.peek-clear c (compute cr p))
  ]

  bytes_moved :
      (a b c : Str) (rest : Bytes)
      → as_bytes (a ++ b) ++ (as_bytes c ++ rest) ≡ as_bytes a ++ (as_bytes (b ++ c) ++ rest)
  bytes_moved a b c rest = simp (as_bytes-append, append_assoc)

  compute_moved :
      (p : Claim) (a b c : Str)
      → compute cr (record p { policy_id = a ++ b; policy_params_hash = c })
        ≡ compute cr (record p { policy_id = a; policy_params_hash = b ++ c })
  unfolding compute
  compute_moved p a b c =
      ap (λ r. cr.xxh64 (as_bytes p.slice_id ++ (cr.uuid_bytes p.anchor_turn_id ++ r)))
        (bytes_moved a b c _)

  -- With a cache that has no entry for a claim, the verdict on it is returned, from the cache, for
  -- the other claim that has a part of the policy id moved to the start of the parameter hash,
  -- whatever the full check says of that other claim.
  pub verify_token_moved :
      (v : TokenVerifier C) (cache : C) (p : Claim) (a b c : Str)
      → v.cache ≡ some cache
      → let x = record p { policy_id = a ++ b; policy_params_hash = c } in
        let y = record p { policy_id = a; policy_params_hash = b ++ c } in
        lru.peek (compute cr x) cache ≡ none
        → (verify_token lru cr (verify_token lru cr v x).1 y).0
          ≡ record { is_valid = check_hmac cr (mode_secret v.mode) x; cache_hit = true }
  unfolding verify_token
  verify_token_moved v cache p a b c on miss =
      let x = record p { policy_id = a ++ b; policy_params_hash = c } in
      ground (
        arith,
        compute_moved p a b c,
        laws.peek-put_same cache (compute cr x) (check_hmac cr (mode_secret v.mode) x),
      )
