-- ===== src/Types/Verification.antt =====
-- src/types/verification.rs: the token verifier with its cache. The cache behind the lock is part of
-- the verifier's state, and a call is one step of it: the read and the write of a call take the lock
-- one after the other, and calls of several threads are taken as one after the other.
pub mod Cache
use admissibility_kernel.Base.{
  ℕ, zero, suc, List, [], ◌∷◌, ◌++◌, Bool, true, false, Option, none, some, Str, Bytes, as_bytes,
  if◌then◌else◌,
}
use admissibility_kernel.Crates.{Crypto, Lru}
use admissibility_kernel.Types.Turn.{TurnId}
use admissibility_kernel.Types.Slice.{SliceExport, SliceFingerprint, GraphSnapshotHash}
use admissibility_kernel.Types.Slice.Token.{AdmissibilityToken, verify_hmac}

pub record CacheConfig : Type 0 where
  pub max_entries : ℕ
  pub enabled : Bool

unfoldable pub default_config : CacheConfig
default_config = record { max_entries = 10000; enabled = true }

pub data VerificationMode : Type 0 where
  local_secret : Bytes → VerificationMode
  cached : Bytes → CacheConfig → VerificationMode

-- `VerificationMode::cached`
unfoldable pub cached_default : Bytes → VerificationMode
unfolding default_config
cached_default secret = cached secret default_config

-- The parameters of `verify_token`.
pub record Claim : Type 0 where
  pub token : AdmissibilityToken
  pub slice_id : SliceFingerprint
  pub anchor_turn_id : TurnId
  pub policy_id : Str
  pub policy_params_hash : Str
  pub graph_snapshot_hash : GraphSnapshotHash
  pub schema_version : Str

pub record VerificationResult : Type 0 where
  pub is_valid : Bool
  pub cache_hit : Bool

pub record CacheStats : Type 0 where
  pub len : ℕ
  pub cap : ℕ

pub record TokenVerifier (C : Type 0) : Type 0 where
  pub mode : VerificationMode
  pub cache : Option C

-- `NonZeroUsize::new(n).unwrap_or(1000)`
abbrev pub cache_size : ℕ → ℕ
cache_size zero = 1000
cache_size (suc n) = suc n

unfoldable pub mode_secret : VerificationMode → Bytes
mode_secret (local_secret secret) = secret
mode_secret (cached secret config) = secret

module _ {F : Type 0} (cr : Crypto F) where
  -- `VerificationCacheKey::compute`: the hasher takes its writes one after the other.
  unfoldable pub compute : Claim → ℕ
  compute p = cr.xxh64 (
      as_bytes p.slice_id
      ++ (cr.uuid_bytes p.anchor_turn_id
          ++ (as_bytes p.policy_id
              ++ (as_bytes p.policy_params_hash
                  ++ (as_bytes p.graph_snapshot_hash
                      ++ (as_bytes p.schema_version ++ as_bytes p.token))))))

  -- The full check, with `verify_hmac`.
  unfoldable pub check_hmac : Bytes → Claim → Bool
  check_hmac secret p =
      verify_hmac cr p.token secret p.slice_id p.anchor_turn_id p.policy_id p.policy_params_hash
        p.graph_snapshot_hash p.schema_version

module _ {C : Type 0} (lru : Lru C) where
  -- `TokenVerifier::new`
  unfoldable pub new : VerificationMode → TokenVerifier C
  new (local_secret secret) = record { mode = local_secret secret; cache = none }
  new (cached secret config) = record {
    mode = cached secret config;
    cache = if config.enabled then some (lru.new (cache_size config.max_entries)) else none;
  }

  -- What a cache says, if there is one.
  abbrev pub peek_cache : Option C → ℕ → Option Bool
  peek_cache none key = none
  peek_cache (some c) key = lru.peek key c

  abbrev pub put_cache : Option C → ℕ → Bool → Option C
  put_cache none key is_valid = none
  put_cache (some c) key is_valid = some (lru.put key is_valid c)

  unfoldable pub verify_token :
      {F : Type 0} → Crypto F → TokenVerifier C → Claim → VerificationResult × TokenVerifier C
  unfolding mode_secret check_hmac
  verify_token cr v p =
      let cache_key = compute cr p in
      elim (peek_cache v.cache cache_key) [
        | some is_valid ↦ (record { is_valid = is_valid; cache_hit = true }, v)
        | none ↦
            let is_valid = check_hmac cr (mode_secret v.mode) p in
            (
              record { is_valid = is_valid; cache_hit = false },
              record v { cache = put_cache v.cache cache_key is_valid },
            )
      ]

  unfoldable pub verify_slice :
      {F : Type 0}
      → Crypto F
      → TokenVerifier C
      → SliceExport F
      → VerificationResult × TokenVerifier C
  unfolding verify_token
  verify_slice cr v s = verify_token cr v (record {
    token = s.admissibility_token;
    slice_id = s.slice_id;
    anchor_turn_id = s.anchor_turn_id;
    policy_id = s.policy_id;
    policy_params_hash = s.policy_params_hash;
    graph_snapshot_hash = s.graph_snapshot_hash;
    schema_version = s.schema_version;
  })

  unfoldable pub cache_stats : TokenVerifier C → Option CacheStats
  cache_stats v = elim v.cache [
    | none ↦ none
    | some c ↦ some (record { len = lru.len c; cap = lru.cap c })
  ]

  unfoldable pub clear_cache : TokenVerifier C → TokenVerifier C
  clear_cache v = record v { cache = elim v.cache [ none ↦ none | some c ↦ some (lru.clear c) ] }
