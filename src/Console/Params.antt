-- ===== src/Console/Params.antt =====
-- The parsers of command parameters: `parse_any` and what is built on it. A parameter is absent
-- where the command line has no more words.

pub mod Laws
pub mod Decimal
use ever_node_tools.Prelude.{◌^◌, String, ◌<>◌, len, Option, ◌==◌, length, if◌then◌else◌}
use ever_node_tools.Prelude.Int.{ℤ}
use ever_node_tools.Outcome.{Outcome, ok, err, ◌>>=◌, map_err, ok_or}
use ever_node_tools.Rust.Str.{trim_quotes}
use ever_node_tools.Rust.Word.{Bytes}
use ever_node_tools.Rust.Parse.{parse_signed}
use ever_node_tools.Rust.Print.{print_ℕ}
use ever_node_tools.Console.Outside.{Codec, Api}

abbrev pub insufficient : String
insufficient = "insufficient parameters"

abbrev pub must_give : String → String → String
must_give name e = "you must give " <> (name <> (": " <> e))

unfoldable pub parse_any : {A : Type 0} → Option String → String → (String → Outcome A) → Outcome A
parse_any param name parse_value =
    map_err (must_give name) do value ← ok_or insufficient param; parse_value (trim_quotes value)

-- `value.as_slice().try_into()?` into `[u8; 32]`
unfoldable pub try_into_32 : Bytes → Outcome Bytes
try_into_32 bytes = if length bytes == 32 then ok bytes else err "could not convert slice to array"

-- the type `ton::int` is `i32`
unfoldable pub parse_i32 : String → Outcome ℤ
unfolding parse_signed
parse_i32 = parse_signed (2 ^ 31)

unfoldable pub parse_int : Option String → String → Outcome ℤ
unfolding parse_any parse_i32
parse_int param name = parse_any param name parse_i32

abbrev pub wrong_hash : String → String
wrong_hash value = "wrong hash: " <> (value <> (" with length: " <> print_ℕ (len value)))

module _ (codec : Codec) where
  unfoldable pub parse_data : Option String → String → Outcome Bytes
  unfolding parse_any
  parse_data param name = parse_any param (name <> " in hex format") codec.hex_decode

  -- the `match` on the length: base64 at 44 bytes of text, hex at 64
  unfoldable pub decode_hash : String → Outcome Bytes
  decode_hash value =
      if len value == 44
      then codec.base64_decode value
      else if len value == 64
      then codec.hex_decode value
      else err (wrong_hash value)

  unfoldable pub parse_hash : String → Outcome Bytes
  unfolding decode_hash try_into_32
  parse_hash value = do bytes ← decode_hash value; try_into_32 bytes

  unfoldable pub parse_int256 : Option String → String → Outcome Bytes
  unfolding parse_any parse_hash
  parse_int256 param name = parse_any param (name <> " in hex or base64 format") parse_hash

module _ (api : Api) where
  unfoldable pub parse_blockid : Option String → String → Outcome api.BlockId
  unfolding parse_any
  parse_blockid param name = parse_any param name api.block_id_from_str
