-- ===== src/Rust/Parse.antt =====
-- `from_str` of Rust's integers, with the texts of its errors.
use Prim.Native.String.{[], ◌∷◌}
use ever_node_tools.Prelude.{
  ℕ, zero, suc, ◌+◌, ◌-◌, ◌*◌, ◌^◌, code, String, ◌≡◌, refl, Bool, inl, inr, Bool-cases, ◌&&◌, leb,
  ltb, ◌==◌, if◌then◌else◌,
}
use ever_node_tools.Prelude.Int.{ℤ, pos, negsuc}
use ever_node_tools.Outcome.{Outcome, ok, err, ◌>>=◌, IsCalm}

abbrev pub empty_text : String
empty_text = "cannot parse integer from empty string"

abbrev pub invalid_digit : String
invalid_digit = "invalid digit found in string"

abbrev pub too_large : String
too_large = "number too large to fit in target type"

abbrev pub too_small : String
too_small = "number too small to fit in target type"

unfoldable pub is_digit : ℕ → Bool
is_digit c = leb b'0' c && leb c b'9'

-- The digits after those that gave `n`; `bound` is the greatest magnitude, and `overflow` the error
-- past it.
unfoldable pub scan_digits : ℕ → String → ℕ → String → Outcome ℕ
unfolding is_digit
scan_digits bound overflow n [] = ok n
scan_digits bound overflow n (c ∷ s) =
    let m = n * 10 + (code c - b'0') in
    if is_digit (code c)
    then if ltb bound m then err overflow else scan_digits bound overflow m s
    else err invalid_digit

-- At least one digit.
unfoldable pub scan_number : ℕ → String → String → Outcome ℕ
unfolding scan_digits
scan_number bound overflow [] = err invalid_digit
scan_number bound overflow (c ∷ s) = scan_digits bound overflow 0 (c ∷ s)

-- -n, as an integer
abbrev pub negate : ℕ → ℤ
negate zero = pos 0
negate (suc n) = negsuc n

-- `i32::from_str` with 2 ^ 31 for the half, and `i64::from_str` with 2 ^ 63.
unfoldable pub parse_signed : ℕ → String → Outcome ℤ
unfolding scan_number
parse_signed half [] = err empty_text
parse_signed half (c ∷ s) =
    if code c == b'-'
    then (do n ← scan_number half too_small s; ok (negate n))
    else if code c == b'+'
    then (do n ← scan_number (half - 1) too_large s; ok (pos n))
    else do n ← scan_number (half - 1) too_large (c ∷ s); ok (pos n)

-- `u32::from_str` and `u64::from_str`, with the greatest value for the bound.
unfoldable pub parse_unsigned : ℕ → String → Outcome ℕ
unfolding scan_number
parse_unsigned bound [] = err empty_text
parse_unsigned bound (c ∷ s) =
    if code c == b'+' then scan_number bound too_large s else scan_number bound too_large (c ∷ s)

scan_digits-IsCalm :
    (bound : ℕ) (overflow : String) (n : ℕ) (s : String) → IsCalm (scan_digits bound overflow n s)
unfolding scan_digits
scan_digits-IsCalm bound overflow n [] = tt
scan_digits-IsCalm bound overflow n (c ∷ s) =
    let m = n * 10 + (code c - b'0') in
    elim (Bool-cases (is_digit (code c))) [
      | inl digit ↦ elim (Bool-cases (ltb bound m)) [
        | inl over ↦ rw (digit, over) tt
        | inr fits ↦ rw (digit, fits) (scan_digits-IsCalm bound overflow m s)
      ]
      | inr other ↦ rw other tt
    ]

scan_number-IsCalm : (bound : ℕ) (overflow s : String) → IsCalm (scan_number bound overflow s)
unfolding scan_number
scan_number-IsCalm bound overflow [] = tt
scan_number-IsCalm bound overflow (c ∷ s) = scan_digits-IsCalm bound overflow 0 (c ∷ s)

-- Reading a number never panics.
pub parse_unsigned-IsCalm : (bound : ℕ) (s : String) → IsCalm (parse_unsigned bound s)
unfolding parse_unsigned
parse_unsigned-IsCalm bound [] = tt
parse_unsigned-IsCalm bound (c ∷ s) = elim (Bool-cases (code c == b'+')) [
  | inl sign ↦ rw sign (scan_number-IsCalm bound too_large s)
  | inr none ↦ rw none (scan_number-IsCalm bound too_large (c ∷ s))
]

parses_min : parse_signed (2 ^ 31) "-2147483648" ≡ ok (negsuc (2 ^ 31 - 1))
unfolding parse_signed
parses_min = refl

parses_errors :
    (parse_signed (2 ^ 31) "2147483648" ≡ err too_large)
    × (parse_signed (2 ^ 31) "-2147483649" ≡ err too_small)
    × (parse_signed (2 ^ 31) "-" ≡ err invalid_digit)
    × (parse_signed (2 ^ 31) "" ≡ err empty_text)
    × (parse_signed (2 ^ 31) "1 " ≡ err invalid_digit)
unfolding parse_signed
parses_errors = (refl, refl, refl, refl, refl)
