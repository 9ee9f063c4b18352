-- ===== src/Rust/Utf8.antt =====
-- UTF-8 in Rust's standard library: `as_bytes`, and the decoding of `String::from_utf8`.
use Prim.Native.Nat.{compare, Ordering}
use Prim.Native.Char.{char, IsScalar}
use mathlib.Core.Option
use ever_node_tools.Prelude.{
  ℕ, zero, suc, ◌+◌, ◌-◌, ◌*◌, ◌/◌, ◌%◌, Char, code, String, ◌≡◌, refl, ◌&&◌, Option, none, some,
  [], ◌∷◌, ◌++◌, leb, ltb, if◌then◌else◌,
}
use ever_node_tools.Rust.Word.{Bytes}

-- The cases of `IsScalar`, which tells the code points that are characters.
abbrev IsLess : Ordering → Type 0
IsLess Ordering.lt = Unit
IsLess Ordering.eq = ⊥
IsLess Ordering.gt = ⊥

abbrev BothLess : Ordering → Ordering → Type 0
BothLess Ordering.lt o = IsLess o
BothLess Ordering.eq _ = ⊥
BothLess Ordering.gt _ = ⊥

abbrev Scalar : Ordering → Ordering → Ordering → Type 0
Scalar Ordering.lt _ _ = Unit
Scalar Ordering.eq o p = BothLess o p
Scalar Ordering.gt o p = BothLess o p

is_less : (o : Ordering) → Option (IsLess o)
is_less Ordering.lt = some tt
is_less Ordering.eq = none
is_less Ordering.gt = none

both_less : (o p : Ordering) → Option (BothLess o p)
unfolding is_less
both_less Ordering.lt p = is_less p
both_less Ordering.eq p = none
both_less Ordering.gt p = none

scalar : (o p q : Ordering) → Option (Scalar o p q)
unfolding both_less
scalar Ordering.lt p q = some tt
scalar Ordering.eq p q = both_less p q
scalar Ordering.gt p q = both_less p q

-- `char::from_u32`
unfoldable pub from_u32 : ℕ → Option Char
unfolding scalar
from_u32 n =
    let p : Option (IsScalar n) = scalar (compare n 55296) (compare 57343 n) (compare n 1114112) in
    elim p [ none ↦ none | some q ↦ some (char n q) ]

-- the bytes of one character
encode_char : ℕ → Bytes
encode_char n =
    if ltb n 0x80
    then n ∷ []
    else if ltb n 0x800
    then (0xc0 + n / 64) ∷ (0x80 + n % 64) ∷ []
    else if ltb n 0x10000
    then (0xe0 + n / 4096) ∷ (0x80 + n / 64 % 64) ∷ (0x80 + n % 64) ∷ []
    else (0xf0 + n / 262144) ∷ (0x80 + n / 4096 % 64) ∷ (0x80 + n / 64 % 64) ∷ (0x80 + n % 64) ∷ []

-- `as_bytes`
unfoldable pub as_bytes : String → Bytes
unfolding encode_char
as_bytes String.[] = []
as_bytes (String.◌∷◌ c s) = encode_char (code c) ++ as_bytes s

-- What a first byte says: the number of bytes that follow, the bits of its own, and the least code
-- point that needs so many.
first_byte : ℕ → Option (ℕ × ℕ × ℕ)
first_byte b =
    if ltb b 0x80
    then some (0, b, 0)
    else if leb 0xc0 b && ltb b 0xe0
    then some (1, b - 0xc0, 0x80)
    else if leb 0xe0 b && ltb b 0xf0
    then some (2, b - 0xe0, 0x800)
    else if leb 0xf0 b && ltb b 0xf8
    then some (3, b - 0xf0, 0x10000)
    else none

-- a code point that is decoded, unless its encoding was too long or it is no character
finish : ℕ → ℕ → Option Char
unfolding from_u32
finish n least = if ltb n least then none else from_u32 n

-- The bytes to come of the present character, its bits so far and its least code point.
decode : ℕ → ℕ → ℕ → Bytes → Option String
decode zero n least [] = Option.map (λ c. String.◌∷◌ c String.[]) (finish n least)
decode (suc k) n least [] = none
decode zero n least (b ∷ bytes) = elim (first_byte b) [
  | none ↦ none
  | some (k, bits, new) ↦ elim (finish n least) [
    | none ↦ none
    | some c ↦ elim (decode k bits new bytes) [ none ↦ none | some s ↦ some (String.◌∷◌ c s) ]
  ]
]
decode (suc k) n least (b ∷ bytes) =
    let rest = decode k (n * 64 + (b - 0x80)) least bytes in
    if leb 0x80 b && ltb b 0xc0 then rest else none

-- `String::from_utf8`; `none` is its error
unfoldable pub from_utf8 : Bytes → Option String
unfolding first_byte finish decode
from_utf8 [] = some String.[]
from_utf8 (b ∷ bytes) = elim (first_byte b) [
  | none ↦ none
  | some (k, bits, least) ↦ decode k bits least bytes
]

decodes : from_utf8 (as_bytes "a€é😀z") ≡ some "a€é😀z"
unfolding from_utf8 as_bytes
decodes = refl

-- An overlong encoding, a surrogate and a text that ends too early are refused.
refuses :
    (from_utf8 (0xc0 ∷ 0x80 ∷ []) ≡ none)
    × (from_utf8 (0xed ∷ 0xa0 ∷ 0x80 ∷ []) ≡ none)
    × (from_utf8 (0xe2 ∷ 0x82 ∷ []) ≡ none)
unfolding from_utf8
refuses = (refl, refl, refl)
