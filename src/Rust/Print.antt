-- ===== src/Rust/Print.antt =====
-- `to_string` of Rust's integers, and how `from_str` reads its texts.
use Prim.Native.String.{[], ◌∷◌}
use ever_node_tools.Prelude.{
  ℕ, zero, suc, ◌+◌, ◌-◌, ◌*◌, ◌/◌, ◌%◌, ◌≤◌, ◌<◌, Char, code, String, ◌<>◌, ◌≡◌, refl, ◌∙◌, true,
  false, inl, inr, Bool-cases, arith, ltb, if◌then◌else◌,
}
use ever_node_tools.Prelude.Int.{ℤ, pos, negsuc}
use ever_node_tools.Outcome.{ok, ◌>>=◌}
use ever_node_tools.Rust.Str.{is_quote, Lacks}
use ever_node_tools.Rust.Word.{InRange}
use ever_node_tools.Rust.Parse.{
  is_digit, scan_digits, scan_number, parse_signed, parse_unsigned, too_large, too_small,
}

-- the character of a digit below ten
unfoldable digit_char : ℕ → Char
digit_char zero = "0"
digit_char (suc zero) = "1"
digit_char (suc (suc zero)) = "2"
digit_char (suc (suc (suc zero))) = "3"
digit_char (suc (suc (suc (suc zero)))) = "4"
digit_char (suc (suc (suc (suc (suc zero))))) = "5"
digit_char (suc (suc (suc (suc (suc (suc zero)))))) = "6"
digit_char (suc (suc (suc (suc (suc (suc (suc zero))))))) = "7"
digit_char (suc (suc (suc (suc (suc (suc (suc (suc zero)))))))) = "8"
digit_char (suc (suc (suc (suc (suc (suc (suc (suc (suc n))))))))) = "9"

-- The digits of `n` before those already written; the first argument is fuel, and any above `n` is
-- enough.
print_digits : ℕ → ℕ → String → String
unfolding digit_char
print_digits zero n out = out
print_digits (suc fuel) n out =
    let more = print_digits fuel (n / 10) (digit_char (n % 10) ∷ out) in
    if ltb n 10 then digit_char n ∷ out else more

unfoldable pub print_ℕ : ℕ → String
unfolding print_digits
print_ℕ n = print_digits (suc n) n []

unfoldable pub print_ℤ : ℤ → String
unfolding print_ℕ
print_ℤ (pos n) = print_ℕ n
print_ℤ (negsuc n) = "-" ∷ print_ℕ (suc n)

-- the hex digits of ten and above
letter_char : ℕ → Char
letter_char zero = "a"
letter_char (suc zero) = "b"
letter_char (suc (suc zero)) = "c"
letter_char (suc (suc (suc zero))) = "d"
letter_char (suc (suc (suc (suc zero)))) = "e"
letter_char (suc (suc (suc (suc (suc n))))) = "f"

hex_char : ℕ → Char
unfolding digit_char letter_char
hex_char d = if ltb d 10 then digit_char d else letter_char (d - 10)

hex_digits : ℕ → ℕ → String → String
unfolding hex_char
hex_digits zero n out = out
hex_digits (suc fuel) n out =
    let more = hex_digits fuel (n / 16) (hex_char (n % 16) ∷ out) in
    if ltb n 16 then hex_char n ∷ out else more

-- `format!("{:#x}", n)`
unfoldable pub print_hex : ℕ → String
unfolding hex_digits
print_hex n = "0x" <> hex_digits (suc n) n []

prints_hex : print_hex 0x1e0fa9 ≡ "0x1e0fa9"
unfolding print_hex
prints_hex = refl

prints : print_ℤ (negsuc 1608205173) ≡ "-1608205174"
unfolding print_ℤ
prints = refl

code-digit_char : (d : ℕ) → d < 10 → code (digit_char d) ≡ b'0' + d
unfolding digit_char
code-digit_char zero _ = refl
code-digit_char (suc zero) _ = refl
code-digit_char (suc (suc zero)) _ = refl
code-digit_char (suc (suc (suc zero))) _ = refl
code-digit_char (suc (suc (suc (suc zero)))) _ = refl
code-digit_char (suc (suc (suc (suc (suc zero))))) _ = refl
code-digit_char (suc (suc (suc (suc (suc (suc zero)))))) _ = refl
code-digit_char (suc (suc (suc (suc (suc (suc (suc zero))))))) _ = refl
code-digit_char (suc (suc (suc (suc (suc (suc (suc (suc zero)))))))) _ = refl
code-digit_char (suc (suc (suc (suc (suc (suc (suc (suc (suc zero))))))))) _ = refl
code-digit_char (suc (suc (suc (suc (suc (suc (suc (suc (suc (suc n)))))))))) h =
    absurd (omega arith)

-- One digit read.
scan_digit :
    (bound n d m : ℕ) (overflow s : String)
    → d < 10
    → m ≤ bound
    → m ≡ n * 10 + d
    → scan_digits bound overflow n (digit_char d ∷ s) ≡ scan_digits bound overflow m s
unfolding scan_digits
scan_digit bound n d m overflow s h fits e = ground (arith, code-digit_char d h)

module _ (bound : ℕ) (overflow : String) where
  scan-print_digits :
      (fuel n : ℕ) (out : String)
      → n < fuel
      → n ≤ bound
      → scan_digits bound overflow 0 (print_digits fuel n out) ≡ scan_digits bound overflow n out
  unfolding print_digits
  scan-print_digits zero n out h fits = elim h [ ]
  scan-print_digits (suc fuel) n out h fits = elim (Bool-cases (ltb n 10)) [
    | inl last ↦ rw last (scan_digit bound 0 n n overflow out (ground arith) fits (omega arith))
    | inr more ↦ rw more (
        scan-print_digits fuel (n / 10) (digit_char (n % 10) ∷ out) (ground arith) (omega arith)
        ∙ scan_digit bound (n / 10) (n % 10) n overflow out (omega arith) fits (omega arith))
  ]

-- What the first character of a printed number is not, and that there is one.
abbrev StartsWithDigit : String → Type 0
StartsWithDigit [] = ⊥
StartsWithDigit (c ∷ s) = is_digit (code c) ≡ true

digit_char-is_digit : (d : ℕ) → d < 10 → is_digit (code (digit_char d)) ≡ true
unfolding is_digit
digit_char-is_digit d h = ground (arith, code-digit_char d h)

print_digits-StartsWithDigit :
    (fuel n : ℕ) (out : String) → n < fuel → StartsWithDigit (print_digits fuel n out)
unfolding print_digits
print_digits-StartsWithDigit zero n out h = elim h [ ]
print_digits-StartsWithDigit (suc fuel) n out h = elim (Bool-cases (ltb n 10)) [
  | inl last ↦ rw last (digit_char-is_digit n (ground arith))
  | inr more ↦
      rw more
        (print_digits-StartsWithDigit fuel (n / 10) (digit_char (n % 10) ∷ out) (ground arith))
]

scan_number_lem :
    (bound : ℕ) (overflow s : String)
    → StartsWithDigit s
    → scan_number bound overflow s ≡ scan_digits bound overflow 0 s
unfolding scan_number
scan_number_lem bound overflow [] h = elim h [ ]
scan_number_lem bound overflow (c ∷ s) h = refl

scan_number-print_ℕ :
    (bound n : ℕ) (overflow : String) → n ≤ bound → scan_number bound overflow (print_ℕ n) ≡ ok n
unfolding print_ℕ
scan_number-print_ℕ bound n overflow h =
    scan_number_lem bound overflow _ (print_digits-StartsWithDigit (suc n) n [] (omega arith))
    ∙ (scan-print_digits bound overflow (suc n) n [] (omega arith) h ∙ unfold scan_digits in refl)

-- A text that starts with a digit has no sign.
parse_signed_unsigned :
    (half : ℕ) (s : String)
    → StartsWithDigit s
    → parse_signed half s ≡ (do n ← scan_number (half - 1) too_large s; ok (pos n))
unfolding parse_signed is_digit
parse_signed_unsigned half [] h = elim h [ ]
parse_signed_unsigned half (c ∷ s) h = ground arith

-- Every integer in range is read back from its decimal text.
pub parse_signed-print_ℤ :
    (half : ℕ) (z : ℤ) → InRange half z → parse_signed half (print_ℤ z) ≡ ok z
unfolding print_ℤ
parse_signed-print_ℤ half (pos n) (lo, hi) =
    parse_signed_unsigned half _
      (unfold print_ℕ in print_digits-StartsWithDigit (suc n) n [] (omega arith))
    ∙ rw (scan_number-print_ℕ (half - 1) n too_large (omega arith))
parse_signed-print_ℤ half (negsuc n) (lo, hi) =
    unfold parse_signed in rw (scan_number-print_ℕ half (suc n) too_small hi)

parse_unsigned_lem :
    (bound : ℕ) (s : String)
    → StartsWithDigit s
    → parse_unsigned bound s ≡ scan_number bound too_large s
unfolding parse_unsigned is_digit
parse_unsigned_lem bound [] h = elim h [ ]
parse_unsigned_lem bound (c ∷ s) h = ground arith

-- Every natural number up to the bound is read back from its decimal text.
pub parse_unsigned-print_ℕ : (bound n : ℕ) → n ≤ bound → parse_unsigned bound (print_ℕ n) ≡ ok n
parse_unsigned-print_ℕ bound n fits =
    parse_unsigned_lem bound (print_ℕ n)
      (unfold print_ℕ in print_digits-StartsWithDigit (suc n) n [] (omega arith))
    ∙ scan_number-print_ℕ bound n too_large fits

-- No character of a printed number is a quotation mark.
digit_char-not_quote : (d : ℕ) → d < 10 → is_quote (code (digit_char d)) ≡ false
digit_char-not_quote d h = ground (arith, code-digit_char d h)

print_digits-Lacks_quote :
    (fuel n : ℕ) (out : String)
    → n < fuel
    → Lacks is_quote out
    → Lacks is_quote (print_digits fuel n out)
unfolding print_digits
print_digits-Lacks_quote zero n out h k = elim h [ ]
print_digits-Lacks_quote (suc fuel) n out h k = elim (Bool-cases (ltb n 10)) [
  | inl last ↦ rw last (digit_char-not_quote n (ground arith), k)
  | inr more ↦ rw more (
      print_digits-Lacks_quote fuel (n / 10) (digit_char (n % 10) ∷ out) (ground arith)
        (digit_char-not_quote (n % 10) (omega arith), k))
]

pub print_ℤ-Lacks_quote : (z : ℤ) → Lacks is_quote (print_ℤ z)
unfolding print_ℤ print_ℕ
print_ℤ-Lacks_quote (pos n) = print_digits-Lacks_quote (suc n) n [] (omega arith) tt
print_ℤ-Lacks_quote (negsuc n) =
    (refl, print_digits-Lacks_quote (suc (suc n)) (suc n) [] (omega arith) tt)
