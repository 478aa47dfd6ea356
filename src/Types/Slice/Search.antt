-- ===== src/Types/Slice/Search.antt =====
-- `slice::binary_search_by_key` of the standard library, as far as `is_ok` tells.
pub mod Correct
use admissibility_kernel.Base.{
  ℕ, zero, suc, ◌+◌, ◌-◌, ◌/◌, List, [], ◌∷◌, Bool, true, false, ltb, ◌==◌, length, if◌then◌else◌,
}

abbrev pub get_or : List ℕ → ℕ → ℕ → ℕ
get_or [] i d = d
get_or (x ∷ xs) zero d = x
get_or (x ∷ xs) (suc i) d = get_or xs i d

-- The loop `while size > 1`, which halves `size`; `fuel` is at least the size.
unfoldable pub narrow : List ℕ → ℕ → ℕ → ℕ → ℕ → ℕ
narrow xs target zero size base = base
narrow xs target (suc fuel) size base =
    let half = size / 2 in
    let mid = base + half in
    let base' = if ltb target (get_or xs mid 0) then base else mid in
    let rest = narrow xs target fuel (size - half) base' in if ltb 1 size then rest else base

unfoldable pub binary_search : List ℕ → ℕ → Bool
unfolding narrow
binary_search [] target = false
binary_search (x ∷ xs) target =
    let size = length (x ∷ xs) in get_or (x ∷ xs) (narrow (x ∷ xs) target size size 0) 0 == target
