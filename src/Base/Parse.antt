-- ===== src/Base/Parse.antt =====
-- `str::parse` of an unsigned number of some bits.
use Prim.Native.Nat.{ℕ, zero, suc, ◌+◌, ◌-◌, ◌*◌, ◌/◌, ◌%◌, ◌^◌, ◌<◌}
use mathlib.Core.Path.{◌≡◌, ◌∙◌, ap}
use mathlib.Core.Bool.{Bool, true, false, ◌&&◌}
use mathlib.Core.Option.{Option, none, some}
use mathlib.Core.List.{[], ◌∷◌, ◌++◌}
use native.Mathlib.Omega.{arith, pow_step}
use mathlib.Core.Logic.{inl, inr}
use admissibility_kernel.Base.Tests.{ltb→lt, Bool-cases, and_then, ltb, leb, ◌==◌, if◌then◌else◌}
use admissibility_kernel.Base.Lists.{is_empty, length, length-append}
use admissibility_kernel.Base.Text.{Str, show_usize, show_fuel}

abbrev pub is_digit : ℕ → Bool
is_digit c = leb b'0' c && leb c b'9'

-- The digits, after those that make `acc`; a number that does not fit is refused.
unfoldable pub parse_digits : ℕ → ℕ → Str → Option ℕ
parse_digits bits acc [] = some acc
parse_digits bits acc (c ∷ s) =
    let n = acc * 10 + (c - b'0') in
    let rest = parse_digits bits n s in if is_digit c && ltb n (2 ^ bits) then rest else none

-- A sign may come first, and there is at least one digit.
unfoldable pub parse_unsigned : ℕ → Str → Option ℕ
unfolding parse_digits
parse_unsigned bits [] = none
parse_unsigned bits (c ∷ s) =
    if c == b'+'
    then (if is_empty s then none else parse_digits bits 0 s)
    else parse_digits bits 0 (c ∷ s)

parse_digits-append :
    (bits acc c : ℕ) (s : Str)
    → parse_digits bits acc (s ++ c ∷ [])
      ≡ and_then (parse_digits bits acc s) (λ n. parse_digits bits n (c ∷ []))
unfolding parse_digits
parse_digits-append bits acc c [] = ground arith
parse_digits-append bits acc c (d ∷ s) =
    ground (arith, parse_digits-append bits (acc * 10 + (d - b'0')) c s)

last_digit :
    (bits n : ℕ) (s : Str)
    → n < 2 ^ bits
    → parse_digits bits 0 s ≡ some (n / 10)
    → parse_digits bits 0 (s ++ (b'0' + n % 10) ∷ []) ≡ some n
unfolding parse_digits
last_digit bits n s small h = ground (arith, parse_digits-append bits 0 (b'0' + n % 10) s)

show_fuel-one : (k n : ℕ) → ltb n 10 ≡ true → show_fuel (suc k) n ≡ (b'0' + n) ∷ []
unfolding show_fuel
show_fuel-one k n h = ground arith

show_fuel-more :
    (k n : ℕ)
    → ltb n 10 ≡ false
    → show_fuel (suc k) n ≡ show_fuel k (n / 10) ++ (b'0' + n % 10) ∷ []
unfolding show_fuel
show_fuel-more k n h = ground arith

one_digit : (bits n : ℕ) → n < 10 → n < 2 ^ bits → parse_digits bits 0 ((b'0' + n) ∷ []) ≡ some n
unfolding parse_digits
one_digit bits n short small = ground arith

parse_digits-show_fuel :
    (bits k n : ℕ)
    → n < 10 ^ suc k
    → n < 2 ^ bits
    → parse_digits bits 0 (show_fuel (suc k) n) ≡ some n
parse_digits-show_fuel bits zero n short small =
    ap (parse_digits bits 0) (show_fuel-one zero n (ground arith))
    ∙ one_digit bits n (omega arith) small
parse_digits-show_fuel bits (suc k) n short small = elim (Bool-cases (ltb n 10)) [
  | inl one ↦
      ap (parse_digits bits 0) (show_fuel-one (suc k) n one)
      ∙ one_digit bits n (ltb→lt n 10 one) small
  | inr more ↦
      ap (parse_digits bits 0) (show_fuel-more (suc k) n more)
      ∙ last_digit bits n (show_fuel (suc k) (n / 10)) small (
          parse_digits-show_fuel bits k (n / 10) (omega (arith, pow_step 10 (suc k), pow_step 10 k))
            (omega arith))
]

parse_unsigned-digits :
    (bits n : ℕ) (s : Str)
    → parse_digits bits 0 s ≡ some n
    → 0 < length s
    → parse_unsigned bits s ≡ some n
unfolding parse_unsigned parse_digits
parse_unsigned-digits bits n [] h long = absurd (omega arith)
parse_unsigned-digits bits n (c ∷ s) h long = ground arith

length-show_fuel : (k n : ℕ) → 0 < length (show_fuel (suc k) n)
unfolding show_fuel
length-show_fuel k n = ground (arith, length-append (show_fuel k (n / 10)) ((b'0' + n % 10) ∷ []))

-- What is printed is read back, if it fits.
pub parse_unsigned-show_usize :
    (bits n : ℕ) → n < 10 ^ 20 → n < 2 ^ bits → parse_unsigned bits (show_usize n) ≡ some n
unfolding show_usize
parse_unsigned-show_usize bits n short small =
    parse_unsigned-digits bits n (show_fuel 20 n) (parse_digits-show_fuel bits 19 n short small)
      (length-show_fuel 19 n)
