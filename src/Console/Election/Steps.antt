-- ===== src/Console/Election/Steps.antt =====
-- The commands that the election bid gives to `process_command`, one by one: what each adds to the
-- history, whatever the node answers.
use ever_node_tools.Prelude.{String, ◌≡◌, refl, Option-cases, inl, inr, List, [], ◌∷◌}
use ever_node_tools.Prelude.Int.{ℤ, pos}
use ever_node_tools.Outcome.{Outcome, ok}
use ever_node_tools.Rust.Word.{Bytes, sub_i32}
use ever_node_tools.Rust.Print.{print_ℤ}
use ever_node_tools.Console.Outside.{
  Api, World, Event, IsLawful, IsHash, AreBytes, send_query, read_clock, generate_key_pair,
  export_public_key, add_validator_permanent_key, add_validator_temp_key,
  add_validator_adnl_address, add_adnl_id,
}
use ever_node_tools.Console.Outside.{Request}
use ever_node_tools.Console.Receive.{Reply, receive_key_hash}
use ever_node_tools.Console.Command.{find_command}
use ever_node_tools.Console.Send.{now}
use ever_node_tools.Console.Send.Laws.{
  IsI32, send_newkey, send_exportpub, send_addpermkey, send_addtempkey, send_addadnl,
  send_addvalidatoraddr, send_sign,
}
use ever_node_tools.Console.Client.{receive, command_receive, process_command}
use ever_node_tools.Console.Client.Trace.{
  IsQuiet, process_command_sends, process_command_sends_at, process_command-eq-ok,
}

module _ (api : Api) (world : World api.Answer) where
  pub IsQuiet-newkey : IsQuiet api world "newkey"
  unfolding command_receive find_command receive
  IsQuiet-newkey answer params h = refl

  IsQuiet-exportpub : IsQuiet api world "exportpub"
  unfolding command_receive find_command receive
  IsQuiet-exportpub answer params h = refl

  IsQuiet-addpermkey : IsQuiet api world "addpermkey"
  unfolding command_receive find_command receive
  IsQuiet-addpermkey answer params h = refl

  pub IsQuiet-addtempkey : IsQuiet api world "addtempkey"
  unfolding command_receive find_command receive
  IsQuiet-addtempkey answer params h = refl

  IsQuiet-addadnl : IsQuiet api world "addadnl"
  unfolding command_receive find_command receive
  IsQuiet-addadnl answer params h = refl

  pub IsQuiet-addvalidatoraddr : IsQuiet api world "addvalidatoraddr"
  unfolding command_receive find_command receive
  IsQuiet-addvalidatoraddr answer params h = refl

  IsQuiet-sign : IsQuiet api world "sign"
  unfolding command_receive find_command receive
  IsQuiet-sign answer params h = refl

module _ (api : Api) (world : World api.Answer) (laws : IsLawful api) (h : List Event) where
  open laws use {hex, encode, encodes}

  abbrev run : String → List String → Outcome Reply × List Event
  run name params = process_command api world name params h

  pub newkey_sends : (run "newkey" []).1 ≡ send_query (encode generate_key_pair) ∷ h
  newkey_sends =
      process_command_sends api world "newkey" [] h generate_key_pair (IsQuiet-newkey api world)
        (send_newkey api world h) (encodes generate_key_pair)

  module _ (hash : Bytes) (is_hash : IsHash hash) where
    abbrev text : String
    text = api.hex_encode_upper hash

    pub exportpub_sends :
        (run "exportpub" (text ∷ [])).1 ≡ send_query (encode (export_public_key hash)) ∷ h
    exportpub_sends =
        process_command_sends api world "exportpub" _ h (export_public_key hash)
          (IsQuiet-exportpub api world) (send_exportpub api world h hex hash is_hash)
          (encodes (export_public_key hash))

    pub addpermkey_sends :
        (elect expire : ℤ)
        → IsI32 elect
        → IsI32 expire
        → (run "addpermkey" (text ∷ print_ℤ elect ∷ print_ℤ expire ∷ [])).1
          ≡ send_query (encode (add_validator_permanent_key hash elect (sub_i32 expire elect))) ∷ h
    addpermkey_sends elect expire p q =
        process_command_sends api world "addpermkey" _ h _ (IsQuiet-addpermkey api world)
          (send_addpermkey api world h hex hash is_hash elect expire p q) (encodes _)

    pub addadnl_sends :
        (run "addadnl" (text ∷ "0" ∷ [])).1 ≡ send_query (encode (add_adnl_id hash (pos 0))) ∷ h
    addadnl_sends =
        process_command_sends api world "addadnl" _ h _ (IsQuiet-addadnl api world)
          (send_addadnl api world h hex hash is_hash) (encodes _)

    pub sign_sends :
        (message : Bytes)
        → AreBytes message
        → (run "sign" (text ∷ api.hex_encode_upper message ∷ [])).1
          ≡ send_query (encode (Request.sign hash message)) ∷ h
    sign_sends message bytes =
        process_command_sends api world "sign" _ h _ (IsQuiet-sign api world)
          (send_sign api world h hex hash is_hash message bytes) (encodes _)

    module _ (other : Bytes) (is_other : IsHash other) (expire : ℤ) (fits : IsI32 expire) where
      abbrev params : List String
      params = text ∷ api.hex_encode_upper other ∷ print_ℤ expire ∷ []

      pub addtempkey_sends :
          {r : Reply}
          → (run "addtempkey" params).0 ≡ ok r
          → (t : ℤ) × ((now api world h).0 ≡ ok t)
            × ((run "addtempkey" params).1
                ≡ send_query (encode (add_validator_temp_key hash other (sub_i32 expire t)))
                  ∷ read_clock
                  ∷ h)
      addtempkey_sends =
          process_command_sends_at api world "addtempkey" params h
            (λ t. add_validator_temp_key hash other (sub_i32 expire t)) encode
            (IsQuiet-addtempkey api world)
            (send_addtempkey api world h hex hash is_hash other is_other expire fits) encodes

      pub addvalidatoraddr_sends :
          {r : Reply}
          → (run "addvalidatoraddr" params).0 ≡ ok r
          → (t : ℤ) × ((now api world h).0 ≡ ok t)
            × ((run "addvalidatoraddr" params).1
                ≡ send_query (encode (add_validator_adnl_address hash other (sub_i32 expire t)))
                  ∷ read_clock
                  ∷ h)
      addvalidatoraddr_sends =
          process_command_sends_at api world "addvalidatoraddr" params h
            (λ t. add_validator_adnl_address hash other (sub_i32 expire t)) encode
            (IsQuiet-addvalidatoraddr api world)
            (send_addvalidatoraddr api world h hex hash is_hash other is_other expire fits) encodes

receive_key_hash-IsHash :
    (api : Api) (laws : IsLawful api) (answer : api.Answer) (r : Reply)
    → receive_key_hash api answer ≡ ok r
    → IsHash r.1
unfolding receive_key_hash
receive_key_hash-IsHash api laws answer r done = elim (Option-cases (api.as_key_hash answer)) [
  | inl missing ↦ cc (rw missing at done)
  | inr (hash, found) ↦
      let e : hash ≡ r.1 = cc (rw found at done) in rw e at (laws.key_hash-IsHash answer hash found)
]

-- The bytes of a reply to `newkey` are a key hash.
pub newkey-IsHash :
    (api : Api) (world : World api.Answer) (laws : IsLawful api) (h : List Event) (r : Reply)
    → (process_command api world "newkey" [] h).0 ≡ ok r
    → IsHash r.1
newkey-IsHash api world laws h r done =
    let (_, _, answer, _, _, _, _, received) = process_command-eq-ok api world "newkey" [] h done in
    receive_key_hash-IsHash api laws answer r
      (unfold command_receive find_command receive in received)
