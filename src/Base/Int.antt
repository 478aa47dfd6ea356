-- ===== src/Base/Int.antt =====
-- `i64`: timestamps and quantized weights. The program compares them and takes a maximum.
use Prim.Native.Nat.{ℕ, compare, Ordering}
use Prim.Native.Nat.Ordering.{lt, gt}
use mathlib.Core.List.{List, [], ◌∷◌}

-- `negsuc n` is -(n + 1).
pub data ℤ : Type 0 where
  pos : ℕ → ℤ
  negsuc : ℕ → ℤ

abbrev pub compare_ℤ : ℤ → ℤ → Ordering
compare_ℤ (pos a) (pos b) = compare a b
compare_ℤ (pos a) (negsuc b) = gt
compare_ℤ (negsuc a) (pos b) = lt
compare_ℤ (negsuc a) (negsuc b) = compare b a

abbrev pub max_ℤ : ℤ → ℤ → ℤ
max_ℤ a b = elim (compare_ℤ a b) [ Ordering.gt ↦ a | _ ↦ b ]

-- `iter().max().unwrap_or(0)`
unfoldable pub max_or_zero : List ℤ → ℤ
max_or_zero [] = pos 0
max_or_zero (x ∷ []) = x
max_or_zero (x ∷ y ∷ rest) = max_ℤ x (max_or_zero (y ∷ rest))
