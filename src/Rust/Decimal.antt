-- ===== src/Rust/Decimal.antt =====
-- What `from_str` of Rust's integers accepts, by the notation: a sign, digits, and their places.
use Prim.Native.String.{[], ◌∷◌}
use ever_node_tools.Prelude.{
  ℕ, Char, zero, suc, ◌+◌, ◌-◌, ◌*◌, ◌≤◌, code, String, ◌≡◌, refl, sym, ap, ◌∙◌, true, false, inl,
  inr, Bool-cases, ltb, ◌==◌, arith,
}
use ever_node_tools.Prelude.Int.{ℤ, pos}
use ever_node_tools.Outcome.{ok, ◌>>=◌, >>=-eq-ok}
use ever_node_tools.Rust.Word.{InRange}
use ever_node_tools.Rust.Range.{scan_number-le}
use ever_node_tools.Rust.Parse.{
  is_digit, scan_digits, scan_number, negate, parse_signed, parse_unsigned, too_large, too_small,
}

abbrev pub AreDigits : String → Type 0
AreDigits [] = Unit
AreDigits (c ∷ s) = (is_digit (code c) ≡ true) × AreDigits s

-- at least one digit
abbrev pub IsNumeral : String → Type 0
IsNumeral [] = ⊥
IsNumeral (c ∷ s) = AreDigits (c ∷ s)

-- the value of the place before these digits
unfoldable pub place : String → ℕ
place [] = 1
place (c ∷ s) = 10 * place s

unfoldable pub numeral : String → ℕ
unfolding place
numeral [] = 0
numeral (c ∷ s) = (code c - b'0') * place s + numeral s

place_pos : (s : String) → 1 ≤ place s
unfolding place
place_pos [] = omega arith
place_pos (c ∷ s) = omega (arith, place_pos s)

regroup : (n d p v : ℕ) → (n * 10 + d) * p + v ≡ n * (10 * p) + (d * p + v)
regroup n d p v = grind arith

scan_digits-numeral :
    (bound : ℕ) (overflow : String) (n : ℕ) (s : String) {r : ℕ}
    → scan_digits bound overflow n s ≡ ok r
    → AreDigits s × (r ≡ n * place s + numeral s)
unfolding scan_digits place numeral
scan_digits-numeral bound overflow n [] h = (tt, ground arith)
scan_digits-numeral bound overflow n (c ∷ s) h =
    let m = n * 10 + (code c - b'0') in
    elim (Bool-cases (is_digit (code c))) [
      | inl digit ↦ elim (Bool-cases (ltb bound m)) [
        | inl over ↦ cc (rw (digit, over) at h)
        | inr fits ↦
            let (digits, same) = scan_digits-numeral bound overflow m s (rw (digit, fits) at h) in
            ((digit, digits), same ∙ regroup n (code c - b'0') (place s) (numeral s))
      ]
      | inr other ↦ cc (rw other at h)
    ]

le-mul_place : (m p : ℕ) → 1 ≤ p → m ≤ m * p
le-mul_place m zero h = absurd (omega (arith, h))
le-mul_place m (suc p) h = grind arith

not_below : (bound m : ℕ) → m ≤ bound → ltb bound m ≡ false
not_below bound m h = ground arith

scan_digits-accepts :
    (bound : ℕ) (overflow : String) (n : ℕ) (s : String)
    → AreDigits s
    → n * place s + numeral s ≤ bound
    → scan_digits bound overflow n s ≡ ok (n * place s + numeral s)
unfolding scan_digits place numeral
scan_digits-accepts bound overflow n [] digits fits = ground arith
scan_digits-accepts bound overflow n (c ∷ s) (digit, digits) fits =
    let m = n * 10 + (code c - b'0') in
    let same = regroup n (code c - b'0') (place s) (numeral s) in
    let fits' : m * place s + numeral s ≤ bound = rw same fits in
    let grows = le-mul_place m (place s) (place_pos s) in
    let below : ltb bound m ≡ false = not_below bound m (omega (arith, fits', grows)) in
    rw (digit, below) (scan_digits-accepts bound overflow m s digits fits' ∙ ap ok same)

-- Digits are accepted exactly if their value is not past the bound, and give their value.
scan_number-numeral :
    (bound : ℕ) (overflow s : String) {r : ℕ}
    → scan_number bound overflow s ≡ ok r
    → IsNumeral s × (r ≡ numeral s)
unfolding scan_number
scan_number-numeral bound overflow [] h = cc
scan_number-numeral bound overflow (c ∷ s) h =
    let (digits, same) = scan_digits-numeral bound overflow 0 (c ∷ s) h in
    (digits, omega (arith, same))

scan_number-accepts :
    (bound : ℕ) (overflow s : String)
    → IsNumeral s
    → numeral s ≤ bound
    → scan_number bound overflow s ≡ ok (numeral s)
unfolding scan_number
scan_number-accepts bound overflow [] digits fits = elim digits [ ]
scan_number-accepts bound overflow (c ∷ s) digits fits =
    scan_digits-accepts bound overflow 0 (c ∷ s) digits (omega (arith, fits)) ∙ ap ok (omega arith)

-- A text in decimal notation, and the integer that it stands for.
pub data Denotes (s : String) (z : ℤ) : Type 0 where
  minus :
      (c : Char) (t : String)
      → s ≡ c ∷ t
      → code c ≡ b'-'
      → IsNumeral t
      → z ≡ negate (numeral t)
      → Denotes s z
  plus :
      (c : Char) (t : String)
      → s ≡ c ∷ t
      → code c ≡ b'+'
      → IsNumeral t
      → z ≡ pos (numeral t)
      → Denotes s z
  plain : IsNumeral s → z ≡ pos (numeral s) → Denotes s z

-- what a chain of a read number and a conversion gives
converted :
    (bound : ℕ) (overflow s : String) (f : ℕ → ℤ) {z : ℤ}
    → (do n ← scan_number bound overflow s; ok (f n)) ≡ ok z
    → IsNumeral s × (z ≡ f (numeral s))
converted bound overflow s f {z} h =
    let (n, read, same) = >>=-eq-ok (scan_number bound overflow s) (λ n. ok (f n)) h in
    let (digits, value) = scan_number-numeral bound overflow s read in
    let e : f n ≡ z = cc in (digits, sym e ∙ ap f value)

pub parse_signed-Denotes :
    (half : ℕ) (s : String) {z : ℤ} → parse_signed half s ≡ ok z → Denotes s z
unfolding parse_signed
parse_signed-Denotes half [] h = cc
parse_signed-Denotes half (c ∷ s) h = elim (Bool-cases (code c == b'-')) [
  | inl sign ↦
      let (digits, value) = converted half too_small s negate (rw sign at h) in
      minus c s refl (ground arith) digits value
  | inr other ↦ elim (Bool-cases (code c == b'+')) [
    | inl sign ↦
        let (digits, value) = converted (half - 1) too_large s pos (rw (other, sign) at h) in
        plus c s refl (ground arith) digits value
    | inr none ↦
        let (digits, value) = converted (half - 1) too_large (c ∷ s) pos (rw (other, none) at h) in
        plain digits value
  ]
]

-- the conversion of a number that is read
read_as :
    (bound : ℕ) (overflow s : String) (f : ℕ → ℤ) {z : ℤ}
    → IsNumeral s
    → numeral s ≤ bound
    → z ≡ f (numeral s)
    → (do n ← scan_number bound overflow s; ok (f n)) ≡ ok z
read_as bound overflow s f digits fits value =
    ap (λ r. r >>= λ n. ok (f n)) (scan_number-accepts bound overflow s digits fits)
    ∙ ap ok (sym value)

negate-le : (half n : ℕ) → InRange half (negate n) → n ≤ half
negate-le half zero fits = omega arith
negate-le half (suc n) fits = fits.1

no_sign :
    (c : Char) → is_digit (code c) ≡ true → ((code c == b'-') ≡ false) × ((code c == b'+') ≡ false)
unfolding is_digit
no_sign c digit = (ground arith, ground arith)

accepts_cons :
    (half : ℕ) (c : Char) (s : String) (z : ℤ)
    → IsNumeral (c ∷ s)
    → z ≡ pos (numeral (c ∷ s))
    → InRange half z
    → parse_signed half (c ∷ s) ≡ ok z
unfolding parse_signed
accepts_cons half c s z digits value fits =
    let (no_minus, no_plus) = no_sign c digits.0 in
    let fits' : InRange half (pos (numeral (c ∷ s))) = rw value at fits in
    let branch : parse_signed half (c ∷ s)
        ≡ (do n ← scan_number (half - 1) too_large (c ∷ s); ok (pos n)) =
      rw (no_minus, no_plus) refl in
    branch ∙ read_as (half - 1) too_large (c ∷ s) pos digits (omega (arith, fits')) value

pub parse_signed-accepts :
    (half : ℕ) (s : String) (z : ℤ) → Denotes s z → InRange half z → parse_signed half s ≡ ok z
unfolding parse_signed
parse_signed-accepts half s z (minus c t split sign digits value) fits =
    let first : (code c == b'-') ≡ true = ground arith in
    let fits' : InRange half (negate (numeral t)) = rw value at fits in
    rw (split, first)
      (read_as half too_small t negate digits (negate-le half (numeral t) fits') value)
parse_signed-accepts half s z (plus c t split sign digits value) fits =
    let first : (code c == b'-') ≡ false = ground arith in
    let second : (code c == b'+') ≡ true = ground arith in
    let fits' : InRange half (pos (numeral t)) = rw value at fits in
    rw (split, first, second)
      (read_as (half - 1) too_large t pos digits (omega (arith, fits')) value)
parse_signed-accepts half [] z (plain digits value) fits = elim digits [ ]
parse_signed-accepts half (c ∷ s) z (plain digits value) fits =
    accepts_cons half c s z digits value fits

-- The same without a minus.
pub data Counts (s : String) (n : ℕ) : Type 0 where
  plus :
      (c : Char) (t : String) → s ≡ c ∷ t → code c ≡ b'+' → IsNumeral t → n ≡ numeral t → Counts s n
  plain : IsNumeral s → n ≡ numeral s → Counts s n

pub parse_unsigned-Counts :
    (bound : ℕ) (s : String) {n : ℕ} → parse_unsigned bound s ≡ ok n → Counts s n × (n ≤ bound)
unfolding parse_unsigned
parse_unsigned-Counts bound [] h = cc
parse_unsigned-Counts bound (c ∷ s) h = elim (Bool-cases (code c == b'+')) [
  | inl sign ↦
      let read = rw sign at h in
      let (digits, value) = scan_number-numeral bound too_large s read in
      (Counts.plus c s refl (ground arith) digits value, scan_number-le bound too_large s read)
  | inr none ↦
      let read = rw none at h in
      let (digits, value) = scan_number-numeral bound too_large (c ∷ s) read in
      (Counts.plain digits value, scan_number-le bound too_large (c ∷ s) read)
]

pub parse_unsigned-accepts :
    (bound : ℕ) (s : String) (n : ℕ) → Counts s n → n ≤ bound → parse_unsigned bound s ≡ ok n
unfolding parse_unsigned
parse_unsigned-accepts bound s n (Counts.plus c t split sign digits value) fits =
    let first : (code c == b'+') ≡ true = ground arith in
    rw (split, first)
      (scan_number-accepts bound too_large t digits (omega (arith, value, fits))
        ∙ ap ok (sym value))
parse_unsigned-accepts bound [] n (Counts.plain digits value) fits = elim digits [ ]
parse_unsigned-accepts bound (c ∷ s) n (Counts.plain digits value) fits =
    let (_, no_plus) = no_sign c digits.0 in
    rw no_plus (
      scan_number-accepts bound too_large (c ∷ s) digits (omega (arith, value, fits))
      ∙ ap ok (sym value))
