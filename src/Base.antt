-- ===== src/Base.antt =====
-- The names that the other modules share: the libraries', passed on, and those of the children.
mod Tests
mod Lists
mod Text
pub mod Int
pub mod Sort
pub mod Membership
pub mod Order
pub mod Tree
pub mod Bits
pub mod Set
pub mod Parse
pub mod Perm
pub mod Take
pub use Tests.*
pub use Lists.*
pub use Text.{
  Str, Bytes, codes, str_eq, str_eq_refl, eq_of_str_eq, is_ascii_hexdigit, hex_digit,
  length-hex_digits, as_bytes-append, length-as_bytes, to_lowercase,
}
unfoldable pub use Text.{as_bytes, hex_digits, join, show_usize}
pub use Prim.Native.Nat.{ℕ, zero, suc, ◌+◌, ◌-◌, ◌*◌, ◌/◌, ◌%◌, ◌^◌, ◌≤◌, ◌<◌, compare, Ordering}
pub use Prim.Native.String.{String}
pub use mathlib.Core.Path.{◌≡◌, refl, sym, ap, ap₂, ◌∙◌, subst}
pub use mathlib.Core.Logic.{◌≢◌, ◌↔◌, ◌⊎◌, inl, inr, ⊎_elim}
pub use mathlib.Core.Bool.{Bool, true, false, not, ◌&&◌, ◌||◌}
pub use mathlib.Core.Option.{Option, none, some}
pub use mathlib.Core.List.{List, [], ◌∷◌, ◌++◌, map, Memᴰ, Permᴰ}
pub use native.Mathlib.Omega.{arith}
