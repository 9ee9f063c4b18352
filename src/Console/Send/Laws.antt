-- ===== src/Console/Send/Laws.antt =====
-- The requests that commands make of the parameters which the election bid gives them: key hashes
-- as upper case hex, times as decimal numbers.
use ever_node_tools.Prelude.{◌^◌, String, ◌≡◌, refl, List, [], ◌∷◌}
use ever_node_tools.Prelude.Int.{ℤ, pos}
use ever_node_tools.Outcome.{ok}
use ever_node_tools.Io.{pure, ◌>>=◌}
use ever_node_tools.Rust.Word.{Bytes, InRange, sub_i32}
use ever_node_tools.Rust.Str.{trim_quotes}
use ever_node_tools.Rust.Print.{print_ℤ}
use ever_node_tools.Console.Outside.{
  Api, World, Event, IsHex, AreBytes, IsHash, generate_key_pair, export_public_key,
  add_validator_permanent_key, add_validator_temp_key, add_validator_adnl_address, add_adnl_id,
}
use ever_node_tools.Console.Outside.{Request}
use ever_node_tools.Console.Params.{parse_int}
use ever_node_tools.Console.Params.Laws.{
  parse_int-print_ℤ, parse_int256-encode_upper, parse_data-encode_upper,
}
use ever_node_tools.Console.Command.{find_command}
use ever_node_tools.Console.Send.{now, send, command_send}

abbrev pub IsI32 : ℤ → Type 0
IsI32 = InRange (2 ^ 31)

module _ (api : Api) (world : World api.Answer) (h : List Event) where
  pub send_newkey : command_send api world "newkey" [] h ≡ (ok generate_key_pair, h)
  unfolding command_send find_command send
  send_newkey = refl

  module _ (hex : IsHex api.codec) (hash : Bytes) (is_hash : IsHash hash) where
    abbrev text : String
    text = api.hex_encode_upper hash

    pub send_exportpub :
        command_send api world "exportpub" (text ∷ []) h ≡ (ok (export_public_key hash), h)
    unfolding command_send find_command send
    send_exportpub =
        rw (parse_int256-encode_upper api.codec hex hash "key_hash" is_hash.0 is_hash.1)

    pub send_addpermkey :
        (elect expire : ℤ)
        → IsI32 elect
        → IsI32 expire
        → command_send api world "addpermkey" (text ∷ print_ℤ elect ∷ print_ℤ expire ∷ []) h
          ≡ (ok (add_validator_permanent_key hash elect (sub_i32 expire elect)), h)
    unfolding command_send find_command send
    send_addpermkey elect expire p q = rw (
      parse_int256-encode_upper api.codec hex hash "key_hash" is_hash.0 is_hash.1,
      parse_int-print_ℤ elect "election_date" p,
      parse_int-print_ℤ expire "expire_at" q,
    )

    pub send_addadnl :
        command_send api world "addadnl" (text ∷ "0" ∷ []) h ≡ (ok (add_adnl_id hash (pos 0)), h)
    unfolding command_send find_command send
    send_addadnl =
        rw (parse_int256-encode_upper api.codec hex hash "key_hash" is_hash.0 is_hash.1)
          (unfold parse_int trim_quotes in refl)

    pub send_sign :
        (message : Bytes)
        → AreBytes message
        → command_send api world "sign" (text ∷ api.hex_encode_upper message ∷ []) h
          ≡ (ok (Request.sign hash message), h)
    unfolding command_send find_command send
    send_sign message bytes = rw (
      parse_int256-encode_upper api.codec hex hash "key_hash" is_hash.0 is_hash.1,
      parse_data-encode_upper api.codec hex message "data" bytes,
    )

    module _ (other : Bytes) (is_other : IsHash other) (expire : ℤ) (fits : IsI32 expire) where
      pub send_addtempkey :
          command_send api world "addtempkey"
            (text ∷ api.hex_encode_upper other ∷ print_ℤ expire ∷ [])
            h
          ≡ (now api world >>= λ t. pure (add_validator_temp_key hash other (sub_i32 expire t))) h
      unfolding command_send find_command send
      send_addtempkey = rw (
        parse_int256-encode_upper api.codec hex hash "permanent_key_hash" is_hash.0 is_hash.1,
        parse_int256-encode_upper api.codec hex other "key_hash" is_other.0 is_other.1,
        parse_int-print_ℤ expire "expire_at" fits,
      )

      pub send_addvalidatoraddr :
          command_send api world "addvalidatoraddr"
            (text ∷ api.hex_encode_upper other ∷ print_ℤ expire ∷ [])
            h
          ≡ (now api world >>= λ t. pure (add_validator_adnl_address hash other (sub_i32 expire t)))
              h
      unfolding command_send find_command send
      send_addvalidatoraddr = rw (
        parse_int256-encode_upper api.codec hex hash "permanent_key_hash" is_hash.0 is_hash.1,
        parse_int256-encode_upper api.codec hex other "key_hash" is_other.0 is_other.1,
        parse_int-print_ℤ expire "expire_at" fits,
      )
