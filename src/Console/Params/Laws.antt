-- ===== src/Console/Params/Laws.antt =====
-- What the parameter parsers accept.
use ever_node_tools.Prelude.{◌^◌, String, len, ◌≡◌, ◌≢◌, ◌<>◌, Option, none, some, arith, length}
use ever_node_tools.Prelude.Int.{ℤ}
use ever_node_tools.Outcome.{ok, err, map_err-eq-ok, >>=-eq-ok}
use ever_node_tools.Rust.Str.{trim_quotes, trim_quotes_lem}
use ever_node_tools.Rust.Word.{Bytes, InRange}
use ever_node_tools.Rust.Print.{print_ℤ, parse_signed-print_ℤ, print_ℤ-Lacks_quote}
use ever_node_tools.Rust.Range.{parse_signed-InRange}
use ever_node_tools.Console.Outside.{Codec, IsHex, AreBytes}
use ever_node_tools.Console.Params.{
  must_give, wrong_hash, try_into_32, parse_int, decode_hash, parse_int256, parse_data,
}

-- The decimal text of an integer in the range of 32 bits is accepted and gives that integer.
pub parse_int-print_ℤ :
    (z : ℤ) (name : String) → InRange (2 ^ 31) z → parse_int (some (print_ℤ z)) name ≡ ok z
unfolding parse_int
parse_int-print_ℤ z name h =
    rw (trim_quotes_lem _ (print_ℤ-Lacks_quote z), parse_signed-print_ℤ (2 ^ 31) z h)

-- The conversion to 32 bytes keeps them.
pub try_into_32_same :
    (bytes : Bytes) {r : Bytes} → try_into_32 bytes ≡ ok r → (length bytes ≡ 32) × (r ≡ bytes)
unfolding try_into_32
try_into_32_same bytes h = ground arith

pub try_into_32_fits : (bytes : Bytes) → length bytes ≡ 32 → try_into_32 bytes ≡ ok bytes
unfolding try_into_32
try_into_32_fits bytes h = ground arith

module _ (codec : Codec) where
  decode_hash_hex :
      (value : String) → len value ≡ 64 → decode_hash codec value ≡ codec.hex_decode value
  unfolding decode_hash
  decode_hash_hex value h = rw h

  decode_hash_wrong :
      (value : String)
      → len value ≢ 44
      → len value ≢ 64
      → decode_hash codec value ≡ err (wrong_hash value)
  unfolding decode_hash
  decode_hash_wrong value h k = ground arith

  -- With a hex codec, the upper case hex text of 32 bytes is accepted as a hash and gives those
  -- bytes.
  pub parse_int256-encode_upper :
      IsHex codec
      → (bytes : Bytes) (name : String) → AreBytes bytes
      → length bytes ≡ 32
      → parse_int256 codec (some (codec.hex_encode_upper bytes)) name ≡ ok bytes
  unfolding parse_int256
  parse_int256-encode_upper hex bytes name h size = rw (
    trim_quotes_lem _ (hex.encode_upper-Lacks_quote bytes h),
    decode_hash_hex (codec.hex_encode_upper bytes) (omega (arith, hex.len-encode_upper bytes h)),
    hex.decode-encode_upper bytes h,
    try_into_32_fits bytes size,
  )

  -- With a hex codec, the upper case hex text of any bytes is accepted as data and gives those bytes.
  pub parse_data-encode_upper :
      IsHex codec
      → (bytes : Bytes) (name : String) → AreBytes bytes
      → parse_data codec (some (codec.hex_encode_upper bytes)) name ≡ ok bytes
  unfolding parse_data
  parse_data-encode_upper hex bytes name h =
      rw (trim_quotes_lem _ (hex.encode_upper-Lacks_quote bytes h), hex.decode-encode_upper bytes h)

  try_into_32-eq-ok : (bytes : Bytes) {r : Bytes} → try_into_32 bytes ≡ ok r → length r ≡ 32
  unfolding try_into_32
  try_into_32-eq-ok bytes h = ground arith

  -- A hash that is accepted has 32 bytes.
  pub length-parse_int256 :
      (param : Option String) (name : String) {bytes : Bytes}
      → parse_int256 codec param name ≡ ok bytes
      → length bytes ≡ 32
  unfolding parse_int256
  length-parse_int256 none name h = cc
  length-parse_int256 (some value) name h =
      let text = trim_quotes value in
      let (decoded, _, fits) =
        >>=-eq-ok (decode_hash codec text) try_into_32 (map_err-eq-ok _ _ h) in
      try_into_32-eq-ok decoded fits

  -- A text which without its quotation marks is neither 44 nor 64 bytes long is refused as a hash,
  -- with that text and its length in the error.
  pub parse_int256_wrong_length :
      (value name : String)
      → len (trim_quotes value) ≢ 44
      → len (trim_quotes value) ≢ 64
      → parse_int256 codec (some value) name
        ≡ err (must_give (name <> " in hex or base64 format") (wrong_hash (trim_quotes value)))
  unfolding parse_int256
  parse_int256_wrong_length value name h k = rw (decode_hash_wrong (trim_quotes value) h k)

-- An integer parameter that is accepted is in the range of 32 bits.
pub parse_int-InRange :
    (param : Option String) (name : String) {z : ℤ}
    → parse_int param name ≡ ok z
    → InRange (2 ^ 31) z
unfolding parse_int
parse_int-InRange none name h = cc
parse_int-InRange (some value) name h =
    parse_signed-InRange (2 ^ 31) (trim_quotes value) (omega arith) (map_err-eq-ok _ _ h)
