-- ===== src/Rust/Word.antt =====
-- Machine integers of fixed width: the range of `i32`, wrapping subtraction (the release build's
-- `-`), casts by `as`, and `to_be_bytes`.
use ever_node_tools.Prelude.{
  ℕ, zero, suc, ◌-◌, ◌/◌, ◌%◌, ◌^◌, ◌≤◌, ◌<◌, ◌≡◌, List, [], ◌∷◌, ◌++◌, arith, ltb, length,
  length-append, if◌then◌else◌,
}
use ever_node_tools.Prelude.Int.{ℤ, pos, negsuc, pos_part, neg_part, ◌-ℤ◌}

abbrev pub Bytes : Type 0
Bytes = List ℕ

-- The integers of `i32`, or of `i64` with 2 ^ 63 for the half.
abbrev pub InRange : ℕ → ℤ → Type 0
InRange half z = (pos_part z < half) × (neg_part z ≤ half)

-- the 32-bit two's complement pattern
unfoldable pub to_u32 : ℤ → ℕ
to_u32 (pos n) = n % 2 ^ 32
to_u32 (negsuc n) = 2 ^ 32 - 1 - n % 2 ^ 32

-- the integer that a 32-bit pattern stands for
unfoldable pub signed32 : ℕ → ℤ
signed32 w = if ltb w (2 ^ 31) then pos w else negsuc (2 ^ 32 - 1 - w)

-- `a - b` on `i32` where overflow is not checked
unfoldable pub sub_i32 : ℤ → ℤ → ℤ
unfolding to_u32 signed32
sub_i32 a b = signed32 (to_u32 (a -ℤ b))

-- `n as i32` of a `u64`
unfoldable pub as_i32 : ℕ → ℤ
unfolding signed32
as_i32 n = signed32 (n % 2 ^ 32)

-- `n as u64` of an `i32`
unfoldable pub as_u64 : ℤ → ℕ
as_u64 (pos n) = n
as_u64 (negsuc n) = 2 ^ 64 - 1 - n

-- The difference of two non-negative `i32` never overflows.
pub sub_i32_lem : (a b : ℕ) → a < 2 ^ 31 → b < 2 ^ 31 → sub_i32 (pos a) (pos b) ≡ pos a -ℤ pos b
unfolding sub_i32 ◌-ℤ◌
sub_i32_lem a b ha hb = ground arith

-- A cast of a time before 2 ^ 31 keeps it.
pub as_i32_lem : (n : ℕ) → n < 2 ^ 31 → as_i32 n ≡ pos n
unfolding as_i32
as_i32_lem n h = ground arith

-- `x.to_be_bytes()` of an integer of `width` bytes: the most significant byte comes first.
unfoldable pub to_be_bytes : ℕ → ℕ → Bytes
to_be_bytes zero x = []
to_be_bytes (suc width) x = to_be_bytes width (x / 256) ++ ((x % 256) ∷ [])

pub length-to_be_bytes : (width x : ℕ) → length (to_be_bytes width x) ≡ width
unfolding to_be_bytes
length-to_be_bytes zero x = omega arith
length-to_be_bytes (suc width) x = omega (
  arith,
  length-append (to_be_bytes width (x / 256)) ((x % 256) ∷ []),
  length-to_be_bytes width (x / 256),
)
