-- ===== src/Tests/Hex.antt =====
-- A hex codec that does what the crate hex documents, for the examples.
use Prim.Native.String.len.{cons}
use mathlib.Core.Path.{subst}
use Prim.Native.Char.{len_utf8}
use ever_node_tools.Prelude.{
  ℕ, zero, suc, ◌+◌, ◌-◌, ◌*◌, ◌/◌, ◌%◌, ◌<◌, Char, code, String, len, ◌≡◌, refl, sym, ap, ◌&&◌,
  Option, none, some, [], ◌∷◌, leb, ltb, length, arith, if◌then◌else◌,
}
use ever_node_tools.Outcome.{Outcome, ok, err, panic}
use ever_node_tools.Rust.Word.{Bytes}
use ever_node_tools.Rust.Str.{is_quote, Lacks}
use ever_node_tools.Console.Outside.{Codec, AreBytes, IsHex}

-- an upper case digit
unfoldable upper_char : ℕ → Char
upper_char zero = "0"
upper_char (suc zero) = "1"
upper_char (suc (suc zero)) = "2"
upper_char (suc (suc (suc zero))) = "3"
upper_char (suc (suc (suc (suc zero)))) = "4"
upper_char (suc (suc (suc (suc (suc zero))))) = "5"
upper_char (suc (suc (suc (suc (suc (suc zero)))))) = "6"
upper_char (suc (suc (suc (suc (suc (suc (suc zero))))))) = "7"
upper_char (suc (suc (suc (suc (suc (suc (suc (suc zero)))))))) = "8"
upper_char (suc (suc (suc (suc (suc (suc (suc (suc (suc zero))))))))) = "9"
upper_char (suc (suc (suc (suc (suc (suc (suc (suc (suc (suc zero)))))))))) = "A"
upper_char (suc (suc (suc (suc (suc (suc (suc (suc (suc (suc (suc zero))))))))))) = "B"
upper_char (suc (suc (suc (suc (suc (suc (suc (suc (suc (suc (suc (suc zero)))))))))))) = "C"
upper_char (suc (suc (suc (suc (suc (suc (suc (suc (suc (suc (suc (suc (suc zero))))))))))))) = "D"
upper_char
      (suc (suc (suc (suc (suc (suc (suc (suc (suc (suc (suc (suc (suc (suc zero)))))))))))))) =
    "E"
upper_char
      (suc (suc (suc (suc (suc (suc (suc (suc (suc (suc (suc (suc (suc (suc (suc n))))))))))))))) =
    "F"

-- its code
code-upper_char : (d : ℕ) → d < 16 → code (upper_char d) ≡ (if ltb d 10 then 48 + d else 55 + d)
unfolding upper_char
code-upper_char zero _ = refl
code-upper_char (suc zero) _ = refl
code-upper_char (suc (suc zero)) _ = refl
code-upper_char (suc (suc (suc zero))) _ = refl
code-upper_char (suc (suc (suc (suc zero)))) _ = refl
code-upper_char (suc (suc (suc (suc (suc zero))))) _ = refl
code-upper_char (suc (suc (suc (suc (suc (suc zero)))))) _ = refl
code-upper_char (suc (suc (suc (suc (suc (suc (suc zero))))))) _ = refl
code-upper_char (suc (suc (suc (suc (suc (suc (suc (suc zero)))))))) _ = refl
code-upper_char (suc (suc (suc (suc (suc (suc (suc (suc (suc zero))))))))) _ = refl
code-upper_char (suc (suc (suc (suc (suc (suc (suc (suc (suc (suc zero)))))))))) _ = refl
code-upper_char (suc (suc (suc (suc (suc (suc (suc (suc (suc (suc (suc zero))))))))))) _ = refl
code-upper_char (suc (suc (suc (suc (suc (suc (suc (suc (suc (suc (suc (suc zero)))))))))))) _ =
    refl
code-upper_char (suc (suc (suc (suc (suc (suc (suc (suc (suc (suc (suc (suc (suc zero)))))))))))))
      _ =
    refl
code-upper_char
      (suc (suc (suc (suc (suc (suc (suc (suc (suc (suc (suc (suc (suc (suc zero)))))))))))))) _ =
    refl
code-upper_char
      (suc (suc (suc (suc (suc (suc (suc (suc (suc (suc (suc (suc (suc (suc (suc zero)))))))))))))))
      _ =
    refl
code-upper_char
      (suc
        (suc (suc (suc (suc (suc (suc (suc (suc (suc (suc (suc (suc (suc (suc (suc n))))))))))))))))
      h =
    absurd (omega arith)

width-upper_char : (d : ℕ) → d < 16 → len_utf8 (upper_char d) ≡ 1
unfolding upper_char
width-upper_char zero _ = refl
width-upper_char (suc zero) _ = refl
width-upper_char (suc (suc zero)) _ = refl
width-upper_char (suc (suc (suc zero))) _ = refl
width-upper_char (suc (suc (suc (suc zero)))) _ = refl
width-upper_char (suc (suc (suc (suc (suc zero))))) _ = refl
width-upper_char (suc (suc (suc (suc (suc (suc zero)))))) _ = refl
width-upper_char (suc (suc (suc (suc (suc (suc (suc zero))))))) _ = refl
width-upper_char (suc (suc (suc (suc (suc (suc (suc (suc zero)))))))) _ = refl
width-upper_char (suc (suc (suc (suc (suc (suc (suc (suc (suc zero))))))))) _ = refl
width-upper_char (suc (suc (suc (suc (suc (suc (suc (suc (suc (suc zero)))))))))) _ = refl
width-upper_char (suc (suc (suc (suc (suc (suc (suc (suc (suc (suc (suc zero))))))))))) _ = refl
width-upper_char (suc (suc (suc (suc (suc (suc (suc (suc (suc (suc (suc (suc zero)))))))))))) _ =
    refl
width-upper_char (suc (suc (suc (suc (suc (suc (suc (suc (suc (suc (suc (suc (suc zero)))))))))))))
      _ =
    refl
width-upper_char
      (suc (suc (suc (suc (suc (suc (suc (suc (suc (suc (suc (suc (suc (suc zero)))))))))))))) _ =
    refl
width-upper_char
      (suc (suc (suc (suc (suc (suc (suc (suc (suc (suc (suc (suc (suc (suc (suc zero)))))))))))))))
      _ =
    refl
width-upper_char
      (suc
        (suc (suc (suc (suc (suc (suc (suc (suc (suc (suc (suc (suc (suc (suc (suc n))))))))))))))))
      h =
    absurd (omega arith)

-- `hex::encode_upper`
unfoldable pub encode_upper : Bytes → String
unfolding upper_char
encode_upper [] = String.[]
encode_upper (b ∷ bytes) =
    String.◌∷◌ (upper_char (b / 16 % 16)) (String.◌∷◌ (upper_char (b % 16)) (encode_upper bytes))

-- the value of a digit in upper or lower case
unfoldable digit : ℕ → Option ℕ
digit c =
    if leb 48 c && ltb c 58
    then some (c - 48)
    else if leb 65 c && ltb c 71
    then some (c - 55)
    else if leb 97 c && ltb c 103
    then some (c - 87)
    else none

abbrev put : Option ℕ → Option ℕ → Outcome Bytes → Outcome Bytes
put (some high) (some low) (ok bytes) = ok ((high * 16 + low) ∷ bytes)
put _ _ _ = err "Invalid hex"

-- `hex::decode`
unfoldable pub decode : String → Outcome Bytes
unfolding digit
decode String.[] = ok []
decode (String.◌∷◌ c String.[]) = err "Odd number of digits"
decode (String.◌∷◌ c (String.◌∷◌ d s)) = put (digit (code c)) (digit (code d)) (decode s)

digit_lem : (d : ℕ) → d < 16 → digit (code (upper_char d)) ≡ some d
unfolding digit
digit_lem d h = ground (arith, code-upper_char d h)

decode-encode_upper : (bytes : Bytes) → AreBytes bytes → decode (encode_upper bytes) ≡ ok bytes
unfolding decode encode_upper
decode-encode_upper [] _ = refl
decode-encode_upper (b ∷ bytes) (h, all) =
    let byte : b / 16 % 16 * 16 + b % 16 ≡ b = omega arith in
    rw
      (
        digit_lem (b / 16 % 16) (omega arith),
        digit_lem (b % 16) (omega arith),
        decode-encode_upper bytes all,
      )
      (ap (λ x. ok (x ∷ bytes)) byte)

len-encode_upper : (bytes : Bytes) → AreBytes bytes → len (encode_upper bytes) ≡ 2 * length bytes
unfolding encode_upper
len-encode_upper [] _ = refl
len-encode_upper (b ∷ bytes) (h, all) =
    rw
      (
        cons _ _,
        cons _ _,
        width-upper_char (b / 16 % 16) (omega arith),
        width-upper_char (b % 16) (omega arith),
        len-encode_upper bytes all,
      )
      (omega arith)

encode_upper-Lacks_quote : (bytes : Bytes) → AreBytes bytes → Lacks is_quote (encode_upper bytes)
unfolding encode_upper
encode_upper-Lacks_quote [] _ = tt
encode_upper-Lacks_quote (b ∷ bytes) (h, all) = (
  ground (arith, code-upper_char (b / 16 % 16) (omega arith)),
  (ground (arith, code-upper_char (b % 16) (omega arith)), encode_upper-Lacks_quote bytes all),
)

digit_bound : (c d : ℕ) → digit c ≡ some d → d < 16
unfolding digit
digit_bound c d h = ground arith

put-AreBytes :
    (high low : Option ℕ) (rest : Outcome Bytes) (bytes : Bytes)
    → ((d : ℕ) → high ≡ some d → d < 16)
    → ((d : ℕ) → low ≡ some d → d < 16)
    → ((r : Bytes) → rest ≡ ok r → AreBytes r)
    → put high low rest ≡ ok bytes
    → AreBytes bytes
put-AreBytes (some high) (some low) (ok rest) [] p q r e = tt
put-AreBytes (some high) (some low) (ok rest) (b ∷ bytes) p q r e =
    let (x, y) : (b ≡ high * 16 + low) × (bytes ≡ rest) = ground arith in
    let low_h = p high refl in
    let low_l = q low refl in (omega arith, subst AreBytes (sym y) (r rest refl))
put-AreBytes none low rest bytes p q r e = cc
put-AreBytes (some high) none rest bytes p q r e = cc
put-AreBytes (some high) (some low) (err x) bytes p q r e = cc
put-AreBytes (some high) (some low) (panic x) bytes p q r e = cc

decode-AreBytes : (text : String) (bytes : Bytes) → decode text ≡ ok bytes → AreBytes bytes
unfolding decode
decode-AreBytes String.[] [] e = tt
decode-AreBytes String.[] (b ∷ bytes) e = cc
decode-AreBytes (String.◌∷◌ c String.[]) bytes e = cc
decode-AreBytes (String.◌∷◌ c (String.◌∷◌ d s)) bytes e =
    put-AreBytes (digit (code c)) (digit (code d)) (decode s) bytes (digit_bound (code c))
      (digit_bound (code d)) (decode-AreBytes s) e

abbrev pub codec : Codec
codec = record {
  hex_decode = decode;
  hex_encode = encode_upper;
  hex_encode_upper = encode_upper;
  base64_decode = λ text. err "Invalid base64";
  base64_encode = encode_upper;
}

pub codec-IsHex : IsHex codec
codec-IsHex = record {
  decode-encode_upper = decode-encode_upper;
  len-encode_upper = len-encode_upper;
  decode-AreBytes = decode-AreBytes;
  encode_upper-Lacks_quote = encode_upper-Lacks_quote;
}
