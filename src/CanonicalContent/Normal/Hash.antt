-- ===== src/CanonicalContent/Normal/Hash.antt =====
-- The comparison of hashes in src/canonical_content.rs is equality.
use admissibility_kernel.Base.{
  ℕ, ◌≡◌, ◌↔◌, refl, ap, ◌∙◌, [], ◌∷◌, true, Bytes, Str, as_bytes, length, arith,
}
use Prim.Native.Nat.{bit_or, bit_xor}
use admissibility_kernel.Base.Bits.{bit_or-eq_zero, bit_xor-eq_zero, bit_xor-same}
use admissibility_kernel.Crates.{Crypto}
use admissibility_kernel.CanonicalContent.{
  fold_difference, compute_content_hash, verify_content_hash,
}

fold_difference-eq_zero :
    (acc : ℕ) (s t : Bytes)
    → length s ≡ length t
    → fold_difference acc s t ≡ 0
    → (acc ≡ 0) × (s ≡ t)
unfolding fold_difference
fold_difference-eq_zero acc [] [] e h = (h, refl)
fold_difference-eq_zero acc [] (b ∷ t) e h = absurd (omega arith)
fold_difference-eq_zero acc (a ∷ s) [] e h = absurd (omega arith)
fold_difference-eq_zero acc (a ∷ s) (b ∷ t) e h =
    let (first, rest) = fold_difference-eq_zero (bit_or acc (bit_xor a b)) s t (omega arith) h in
    let (zero_acc, same) = bit_or-eq_zero acc (bit_xor a b) first in
    (zero_acc, ground (arith, bit_xor-eq_zero a b same, rest))

fold_difference-same : (s : Bytes) → fold_difference 0 s s ≡ 0
unfolding fold_difference
fold_difference-same [] = refl
fold_difference-same (a ∷ s) =
    ap (λ x. fold_difference (bit_or 0 x) s s) (bit_xor-same a) ∙ fold_difference-same s

module _ {F : Type 0} (cr : Crypto F) where
  -- The comparison, which reads every byte, finds a text valid exactly if the UTF-8 bytes of its hash
  -- are those of the expected one.
  pub verify_content_hash_iff :
      (text expected : Str)
      → (verify_content_hash cr text expected ≡ true)
        ↔ (as_bytes (compute_content_hash cr text) ≡ as_bytes expected)
  unfolding verify_content_hash
  verify_content_hash_iff text expected =
      let s = as_bytes (compute_content_hash cr text) in
      let t = as_bytes expected in
      (
        λ h. (fold_difference-eq_zero 0 s t (ground arith) (ground arith)).1,
        λ e. ground (arith, e, fold_difference-same s),
      )
