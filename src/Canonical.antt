-- ===== src/Canonical.antt =====
-- src/canonical.rs: the hash of a value's canonical JSON.
use admissibility_kernel.Base.{ℕ, List, [], ◌∷◌, Bytes, Str, hex_digits}
use admissibility_kernel.Crates.{Value, Items, nil, cons, arr, Crypto}

module _ {F : Type 0} where
  -- A sequence, or a tuple.
  abbrev pub items : List (Value F) → Items F
  items [] = nil
  items (v ∷ vs) = cons v (items vs)

  abbrev pub seq : List (Value F) → Value F
  seq vs = arr (items vs)

module _ {F : Type 0} (cr : Crypto F) where
  unfoldable pub to_canonical_bytes : Value F → Bytes
  to_canonical_bytes value = cr.to_vec value

  unfoldable pub canonical_hash : Value F → ℕ
  canonical_hash value = cr.xxh64 (to_canonical_bytes value)

  unfoldable pub canonical_hash_hex : Value F → Str
  canonical_hash_hex value = hex_digits 16 (canonical_hash value)
