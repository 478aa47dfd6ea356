-- ===== src/Samples.antt =====
-- Small stand-ins for the floats and the crates, which satisfy the laws, and small inputs.
pub mod Graph
pub mod Runs
pub mod Queries
pub mod Cache
pub mod Services
pub mod Overlaps
pub mod Atlas
pub mod Records
pub mod Programs
use admissibility_kernel.Base.{
  ℕ, zero, suc, ◌+◌, ◌-◌, ◌*◌, ◌/◌, ◌%◌, ◌^◌, ◌<◌, ◌≤◌, ◌≡◌, refl, ap, ◌∙◌, inl, inr, List, [], ◌∷◌,
  ◌++◌, Bool, true, false, ◌&&◌, Option, none, some, Str, Bytes, codes, compare, ltb, leb, ◌==◌,
  length, contains, All, show_usize, hex_digit, is_ascii_hexdigit, if◌then◌else◌, arith,
  Option-cases,
}
use admissibility_kernel.Base.Int.{ℤ, pos, negsuc}
use admissibility_kernel.Crates.{
  Floats, FloatLaws, compare_ranks, Value, null, bool, int, float, str, arr, obj, Items, nil, cons,
  Fields, end, field, Crypto, CryptoLaws, IsOctets, Lru, LruLaws,
}

-- Floats in thousandths, with one NaN.
abbrev pub nan : ℕ
nan = 1000000000

abbrev milli_rank : ℕ → Option ℕ
milli_rank a = if a == nan then none else some a

abbrev milli_power : ℕ → ℕ → ℕ
milli_power x zero = 1000
milli_power x (suc n) = milli_power x n * x / 1000

abbrev milli_powi : ℕ → ℤ → ℕ
milli_powi x (pos n) = milli_power x n
milli_powi x (negsuc n) = 1000

abbrev milli_sum : List ℕ → ℕ
milli_sum [] = 0
milli_sum (x ∷ xs) = x + milli_sum xs

abbrev pub floats : Floats ℕ
floats = record {
  partial_cmp = λ a b. compare_ranks (milli_rank a) (milli_rank b);
  add = λ a b. a + b;
  mul = λ a b. a * b / 1000;
  powi = milli_powi;
  sub = λ a b. a - b;
  div = λ a b. a * 1000 / b;
  sqrt = λ a. a;
  min = λ a b. if ltb b a then b else a;
  max = λ a b. if ltb a b then b else a;
  infinity = 900000000;
  neg_infinity = 0;
  sum = milli_sum;
  of_usize = λ n. n * 1000;
  show_two = λ a. show_usize (a / 10);
  decimal = λ m k. m * 1000 / 10 ^ k;
  scaled = λ a k. pos (a * k / 1000);
}

abbrev pub float_laws : FloatLaws floats
float_laws = record { rank = milli_rank; by_rank = λ a b. refl }

-- A checksum in place of the hashes.
abbrev checksum : ℕ → Bytes → ℕ
checksum acc [] = acc
checksum acc (b ∷ bytes) = checksum ((acc * 31 + b + 7) % 65521) bytes

abbrev spread : ℕ → ℕ → Bytes
spread zero seed = []
spread (suc n) seed = seed % 256 ∷ spread n (seed * 5 + 1)

abbrev hex_pairs : Bytes → Str
hex_pairs [] = []
hex_pairs (b ∷ bytes) = hex_digit (b / 16) ∷ hex_digit (b % 16) ∷ hex_pairs bytes

abbrev nibble : ℕ → Option ℕ
nibble c =
    if leb b'0' c && leb c b'9'
    then some (c - b'0')
    else if leb b'a' c && leb c b'f'
    then some (c - 87)
    else if leb b'A' c && leb c b'F'
    then some (c - 55)
    else none

abbrev byte_of : Option ℕ → Option ℕ → Option Bytes → Option Bytes
byte_of (some hi) (some lo) (some rest) = some ((hi * 16 + lo) ∷ rest)
byte_of _ _ _ = none

abbrev read_pairs : Str → Option Bytes
read_pairs [] = some []
read_pairs (c ∷ []) = none
read_pairs (c ∷ d ∷ s) = byte_of (nibble c) (nibble d) (read_pairs s)

-- A text in place of JSON.
abbrev mutual
  value_bytes : Value ℕ → Bytes
  value_bytes null = 0 ∷ []
  value_bytes (bool b) = (if b then 1 else 2) ∷ []
  value_bytes (int (pos n)) = 3 ∷ n ∷ []
  value_bytes (int (negsuc n)) = 4 ∷ n ∷ []
  value_bytes (float x) = 5 ∷ x ∷ []
  value_bytes (str s) = 6 ∷ s
  value_bytes (arr vs) = 7 ∷ items_bytes vs
  value_bytes (obj fs) = 8 ∷ fields_bytes fs

  items_bytes : Items ℕ → Bytes
  items_bytes nil = 9 ∷ []
  items_bytes (cons v vs) = value_bytes v ++ items_bytes vs

  fields_bytes : Fields ℕ → Bytes
  fields_bytes end = 10 ∷ []
  fields_bytes (field name v fs) = name ++ (value_bytes v ++ fields_bytes fs)

-- One character for an identifier.
abbrev one_char : ℕ → Str
one_char u = (u + 200) ∷ []

abbrev read_char : Str → Option ℕ
read_char (c ∷ []) = if leb 200 c && ltb (c - 200) (2 ^ 128) then some (c - 200) else none
read_char _ = none

abbrev pub crypto : Crypto ℕ
crypto = record {
  hmac_sha256 = λ key message. spread 32 (checksum (checksum 1 key) message);
  sha256 = λ message. spread 32 (checksum 2 message);
  hex_encode = hex_pairs;
  hex_decode = read_pairs;
  xxh64 = checksum 3;
  to_vec = value_bytes;
  uuid_bytes = λ u. (u % 256) ∷ [];
  uuid_string = one_char;
  parse_uuid = read_char;
}

length-spread : (n seed : ℕ) → length (spread n seed) ≡ n
length-spread zero seed = refl
length-spread (suc n) seed = omega (arith, length-spread n (seed * 5 + 1))

spread-IsOctets : (n seed : ℕ) → IsOctets (spread n seed)
spread-IsOctets zero seed = tt
spread-IsOctets (suc n) seed = (omega arith, spread-IsOctets n (seed * 5 + 1))

nibble-hex_digit : (d : ℕ) → d < 16 → nibble (hex_digit d) ≡ some d
nibble-hex_digit d h = ground arith

read-hex_pairs : (b : Bytes) → IsOctets b → read_pairs (hex_pairs b) ≡ some b
read-hex_pairs [] h = refl
read-hex_pairs (x ∷ b) h = ground (
  arith,
  nibble-hex_digit (x / 16) (omega arith),
  nibble-hex_digit (x % 16) (omega arith),
  read-hex_pairs b,
)

length-hex_pairs : (b : Bytes) → length (hex_pairs b) ≡ 2 * length b
length-hex_pairs [] = refl
length-hex_pairs (x ∷ b) = omega (arith, length-hex_pairs b)

is_ascii-hex_digit : (d : ℕ) → d < 16 → is_ascii_hexdigit (hex_digit d) ≡ true
is_ascii-hex_digit d h = ground arith

hex_pairs-digits : (b : Bytes) → IsOctets b → All (λ c. is_ascii_hexdigit c ≡ true) (hex_pairs b)
hex_pairs-digits [] h = tt
hex_pairs-digits (x ∷ b) h = (
  is_ascii-hex_digit (x / 16) (omega (arith, h.0)),
  (is_ascii-hex_digit (x % 16) (omega arith), hex_pairs-digits b h.1),
)

read_char-range : (s : Str) (u : ℕ) → read_char s ≡ some u → u < 2 ^ 128
read_char-range [] u h = cc
read_char-range (c ∷ []) u h = ground arith
read_char-range (c ∷ d ∷ s) u h = cc

pub crypto_laws : CryptoLaws crypto
crypto_laws = record {
  length-hmac = λ key message. length-spread 32 (checksum (checksum 1 key) message);
  hmac-IsOctets = λ key message. spread-IsOctets 32 (checksum (checksum 1 key) message);
  decode-encode = read-hex_pairs;
  length-encode = length-hex_pairs;
  encode-hexdigits = hex_pairs-digits;
  uuid_string-no_bar = λ u. ground arith;
  parse-range = read_char-range;
  parse-uuid_string = λ u h. ground arith;
}
