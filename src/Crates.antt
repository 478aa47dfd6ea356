-- ===== src/Crates.antt =====
-- What the program takes from outside: 32-bit floats, and the crates uuid, hmac with sha2, hex,
-- xxhash_rust and serde_json. Each is an argument of the definitions that use it, and
-- `CryptoLaws` states what the proofs rely on.
use admissibility_kernel.Base.{
  ℕ, ◌*◌, ◌^◌, contains, ◌<◌, ◌≡◌, ◌⊎◌, List, Bool, true, false, Option, none, some, Ordering,
  compare, Bytes, Str, All, length, is_ascii_hexdigit, if◌then◌else◌,
}
use admissibility_kernel.Base.Int.{ℤ}

-- `f32`. A comparison with a NaN has no answer.
pub record Floats (F : Type 0) : Type 0 where
  pub partial_cmp : F → F → Option Ordering
  pub add : F → F → F
  pub mul : F → F → F
  pub powi : F → ℤ → F
  pub sub : F → F → F
  pub div : F → F → F
  pub sqrt : F → F
  pub min : F → F → F
  pub max : F → F → F
  pub infinity : F
  pub neg_infinity : F
  -- `iter().sum()`
  pub sum : List F → F
  -- `n as f32`
  pub of_usize : ℕ → F
  -- `{:.2}`
  pub show_two : F → Str
  -- the literal m / 10 ^ k
  pub decimal : ℕ → ℕ → F
  -- ((x as f64) * k).round() as i64
  pub scaled : F → ℕ → ℤ

-- The comparison of two ranks, of which a NaN has none.
abbrev pub compare_ranks : Option ℕ → Option ℕ → Option Ordering
compare_ranks (some i) (some j) = some (compare i j)
compare_ranks _ _ = none

-- The floats but the NaNs are in a line, finitely many.
pub record FloatLaws {F : Type 0} (fl : Floats F) : Type 0 where
  pub rank : F → Option ℕ
  pub by_rank : (a b : F) → fl.partial_cmp a b ≡ compare_ranks (rank a) (rank b)

-- Not a NaN.
abbrev pub IsNumber : {F : Type 0} {fl : Floats F} → FloatLaws fl → F → Type 0
IsNumber laws a = (i : ℕ) × (laws.rank a ≡ some i)

abbrev pub is_less : Option Ordering → Bool
is_less (some Ordering.lt) = true
is_less _ = false

-- `a < b` on floats
abbrev pub flt : {F : Type 0} → Floats F → F → F → Bool
flt fl a b = is_less (fl.partial_cmp a b)

abbrev pub is_not_less : Option Ordering → Bool
is_not_less (some Ordering.gt) = true
is_not_less (some Ordering.eq) = true
is_not_less _ = false

-- `a >= b` on floats
abbrev pub fge : {F : Type 0} → Floats F → F → F → Bool
fge fl a b = is_not_less (fl.partial_cmp a b)

-- `f32::clamp`: a NaN stays.
abbrev pub clamp : {F : Type 0} → Floats F → F → F → F → F
clamp fl x lo hi =
    let raised = if flt fl x lo then lo else x in if flt fl hi raised then hi else raised

-- What serde hands to serde_json: the tree of a value's fields, in declaration order.
mutual
  pub data Value (F : Type 0) : Type 0 where
    null : Value F
    bool : Bool → Value F
    int : ℤ → Value F
    float : F → Value F
    str : Str → Value F
    arr : Items F → Value F
    obj : Fields F → Value F

  pub data Items (F : Type 0) : Type 0 where
    nil : Items F
    cons : Value F → Items F → Items F

  pub data Fields (F : Type 0) : Type 0 where
    end : Fields F
    field : Str → Value F → Fields F → Fields F

pub record Crypto (F : Type 0) : Type 0 where
  -- HMAC-SHA256 of a message under a key
  pub hmac_sha256 : Bytes → Bytes → Bytes
  pub sha256 : Bytes → Bytes
  pub hex_encode : Bytes → Str
  pub hex_decode : Str → Option Bytes
  -- xxh64 with seed 0
  pub xxh64 : Bytes → ℕ
  -- serde_json::to_vec
  pub to_vec : Value F → Bytes
  pub uuid_bytes : ℕ → Bytes
  pub uuid_string : ℕ → Str
  pub parse_uuid : Str → Option ℕ

abbrev pub IsOctets : Bytes → Type 0
IsOctets = All (λ b. b < 256)

pub record CryptoLaws {F : Type 0} (cr : Crypto F) : Type 0 where
  pub length-hmac : (key message : Bytes) → length (cr.hmac_sha256 key message) ≡ 32
  pub hmac-IsOctets : (key message : Bytes) → IsOctets (cr.hmac_sha256 key message)
  pub decode-encode : (b : Bytes) → IsOctets b → cr.hex_decode (cr.hex_encode b) ≡ some b
  pub length-encode : (b : Bytes) → length (cr.hex_encode b) ≡ 2 * length b
  pub encode-hexdigits :
      (b : Bytes) → IsOctets b → All (λ c. is_ascii_hexdigit c ≡ true) (cr.hex_encode b)
  -- A UUID prints in hexadecimal digits and dashes, and reads back.
  pub uuid_string-no_bar : (u : ℕ) → contains (cr.uuid_string u) b'|' ≡ false
  pub parse-range : (s : Str) (u : ℕ) → cr.parse_uuid s ≡ some u → u < 2 ^ 128
  pub parse-uuid_string : (u : ℕ) → u < 2 ^ 128 → cr.parse_uuid (cr.uuid_string u) ≡ some u

-- `LruCache` of the crate lru, with keys that are numbers and Boolean values.
pub record Lru (C : Type 0) : Type 0 where
  pub new : ℕ → C
  pub peek : ℕ → C → Option Bool
  pub put : ℕ → Bool → C → C
  pub clear : C → C
  pub len : C → ℕ
  pub cap : C → ℕ

-- A cache of positive capacity holds what was put last, and nothing that was not put.
pub record LruLaws {C : Type 0} (lru : Lru C) : Type 0 where
  pub peek-new : (n k : ℕ) → lru.peek k (lru.new n) ≡ none
  pub peek-clear : (c : C) (k : ℕ) → lru.peek k (lru.clear c) ≡ none
  pub peek-put_same : (c : C) (k : ℕ) (v : Bool) → lru.peek k (lru.put k v c) ≡ some v
  pub peek-put_old :
      (c : C) (k j : ℕ) (v b : Bool)
      → lru.peek j (lru.put k v c) ≡ some b
      → ((j ≡ k) × (b ≡ v)) ⊎ (lru.peek j c ≡ some b)
