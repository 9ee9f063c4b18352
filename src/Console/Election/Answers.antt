-- ===== src/Console/Election/Answers.antt =====
-- What the node has to answer to each request of an election bid of bin/console.rs, and that the
-- command then succeeds.
use ever_node_tools.Prelude.{String, ◌≡◌, refl, some, List, [], ◌∷◌}
use ever_node_tools.Prelude.Int.{ℤ, pos}
use ever_node_tools.Outcome.{Outcome, ok}
use ever_node_tools.Rust.Word.{Bytes, sub_i32}
use ever_node_tools.Rust.Print.{print_ℤ}
use ever_node_tools.Console.Outside.{
  Api, World, Event, IsLawful, IsHash, AreBytes, read_clock, generate_key_pair, export_public_key,
  add_validator_permanent_key, add_validator_temp_key, add_validator_adnl_address, add_adnl_id,
}
use ever_node_tools.Console.Outside.{Request}
use ever_node_tools.Console.Receive.{
  Reply, receive_key_hash, receive_public_key, receive_signature, receive_success,
}
use ever_node_tools.Console.Receive.Given.{
  key_reply, export_reply, sign_reply, success_reply, key_given, gives_key, public_key_given,
  gives_public_key, signature_given, gives_signature, success_given, gives_success,
}
use ever_node_tools.Console.Command.{find_command}
use ever_node_tools.Console.Send.{Query, now}
use ever_node_tools.Console.Send.Laws.{
  IsI32, send_newkey, send_exportpub, send_addpermkey, send_addtempkey, send_addadnl,
  send_addvalidatoraddr, send_sign,
}
use ever_node_tools.Console.Client.{receive, command_receive, process_command}
use ever_node_tools.Console.Client.Answers.{sent, Accepts, weaken_answer, made_at, answered, runs}

-- What the node says to a request, newest event first: it is done,
module _ (api : Api) (world : World api.Answer) (laws : IsLawful api) (h : List Event) where
  abbrev pub Granted : Query api → Type 0
  Granted query = Accepts api world laws h query (λ answer. api.as_success answer ≡ some tt)

  -- or this is the hash of a new key,
  abbrev pub Generated : Bytes → Type 0
  Generated hash =
      Accepts api world laws h generate_key_pair (λ answer. api.as_key_hash answer ≡ some hash)

  -- or the public key for a hash,
  abbrev pub Exported : Bytes → Bytes → Type 0
  Exported hash key =
      Accepts api world laws h (export_public_key hash)
        (λ answer. api.as_public_key answer ≡ some (some key))

  -- or the signature of a text.
  abbrev pub HasSigned : Bytes → Bytes → Bytes → Type 0
  HasSigned hash bytes signature =
      Accepts api world laws h (Request.sign hash bytes)
        (λ answer. api.as_signature answer ≡ some signature)

module _ (api : Api) (world : World api.Answer) (laws : IsLawful api) where
  open laws use {hex}

  abbrev call : String → List String → List Event → Outcome Reply × List Event
  call = process_command api world

  abbrev Gives : String → List String → List Event → Reply → Query api → List Event → Type 0
  Gives name params h reply query h' = call name params h ≡ (ok reply, sent laws query ∷ h')

  module _ (h : List Event) where
    pub newkey_answered :
        {r : Reply} → (call "newkey" [] h).0 ≡ ok r → Generated api world laws h r.1
    unfolding command_receive find_command receive
    newkey_answered done =
        weaken_answer api world laws (λ answer. key_given api answer)
          (answered api world laws "newkey" [] h generate_key_pair (send_newkey api world h)
            (receive_key_hash api) (λ _ _. refl) done)

    pub newkey_runs :
        {hash : Bytes}
        → Generated api world laws h hash
        → Gives "newkey" [] h (key_reply api hash) generate_key_pair h
    unfolding command_receive find_command receive
    newkey_runs given =
        runs api world laws "newkey" [] h generate_key_pair (send_newkey api world h)
          (receive_key_hash api) (λ _ _. refl)
          (weaken_answer api world laws (λ answer. gives_key api answer) given)

    module _ (hash : Bytes) (is_hash : IsHash hash) where
      abbrev text : String
      text = api.hex_encode_upper hash

      pub exportpub_answered :
          {r : Reply}
          → (call "exportpub" (text ∷ []) h).0 ≡ ok r
          → Exported api world laws h hash r.1
      unfolding command_receive find_command receive
      exportpub_answered done =
          weaken_answer api world laws (λ answer. public_key_given api answer)
            (answered api world laws "exportpub" _ h (export_public_key hash)
              (send_exportpub api world h hex hash is_hash) (receive_public_key api) (λ _ _. refl)
              done)

      pub exportpub_runs :
          {out : Bytes}
          → Exported api world laws h hash out
          → Gives "exportpub" (text ∷ []) h (export_reply api out) (export_public_key hash) h
      unfolding command_receive find_command receive
      exportpub_runs given =
          runs api world laws "exportpub" _ h (export_public_key hash)
            (send_exportpub api world h hex hash is_hash) (receive_public_key api) (λ _ _. refl)
            (weaken_answer api world laws (λ answer. gives_public_key api answer) given)

      pub addpermkey_answered :
          (elect expire : ℤ)
          → IsI32 elect
          → IsI32 expire
          → {r : Reply}
          → (call "addpermkey" (text ∷ print_ℤ elect ∷ print_ℤ expire ∷ []) h).0 ≡ ok r
          → Granted api world laws h (add_validator_permanent_key hash elect (sub_i32 expire elect))
      unfolding command_receive find_command receive
      addpermkey_answered elect expire p q done =
          weaken_answer api world laws (λ answer. success_given api answer)
            (answered api world laws "addpermkey" _ h
              (add_validator_permanent_key hash elect (sub_i32 expire elect))
              (send_addpermkey api world h hex hash is_hash elect expire p q) (receive_success api)
              (λ _ _. refl) done)

      pub addpermkey_runs :
          (elect expire : ℤ)
          → IsI32 elect
          → IsI32 expire
          → Granted api world laws h (add_validator_permanent_key hash elect (sub_i32 expire elect))
          → Gives "addpermkey"
              (text ∷ print_ℤ elect ∷ print_ℤ expire ∷ [])
              h
              success_reply
              (add_validator_permanent_key hash elect (sub_i32 expire elect))
              h
      unfolding command_receive find_command receive
      addpermkey_runs elect expire p q given =
          runs api world laws "addpermkey" _ h
            (add_validator_permanent_key hash elect (sub_i32 expire elect))
            (send_addpermkey api world h hex hash is_hash elect expire p q) (receive_success api)
            (λ _ _. refl) (weaken_answer api world laws (λ answer. gives_success api answer) given)

      pub addadnl_answered :
          {r : Reply}
          → (call "addadnl" (text ∷ "0" ∷ []) h).0 ≡ ok r
          → Granted api world laws h (add_adnl_id hash (pos 0))
      unfolding command_receive find_command receive
      addadnl_answered done =
          weaken_answer api world laws (λ answer. success_given api answer)
            (answered api world laws "addadnl" _ h (add_adnl_id hash (pos 0))
              (send_addadnl api world h hex hash is_hash) (receive_success api) (λ _ _. refl) done)

      pub addadnl_runs :
          Granted api world laws h (add_adnl_id hash (pos 0))
          → Gives "addadnl" (text ∷ "0" ∷ []) h success_reply (add_adnl_id hash (pos 0)) h
      unfolding command_receive find_command receive
      addadnl_runs given =
          runs api world laws "addadnl" _ h (add_adnl_id hash (pos 0))
            (send_addadnl api world h hex hash is_hash) (receive_success api) (λ _ _. refl)
            (weaken_answer api world laws (λ answer. gives_success api answer) given)

      pub sign_answered :
          (bytes : Bytes)
          → AreBytes bytes
          → {r : Reply} → (call "sign" (text ∷ api.hex_encode_upper bytes ∷ []) h).0 ≡ ok r
          → HasSigned api world laws h hash bytes r.1
      unfolding command_receive find_command receive
      sign_answered bytes are done =
          weaken_answer api world laws (λ answer. signature_given api answer)
            (answered api world laws "sign" _ h (Request.sign hash bytes)
              (send_sign api world h hex hash is_hash bytes are) (receive_signature api)
              (λ _ _. refl) done)

      pub sign_runs :
          (bytes : Bytes)
          → AreBytes bytes
          → {out : Bytes} → HasSigned api world laws h hash bytes out
          → Gives "sign"
              (text ∷ api.hex_encode_upper bytes ∷ [])
              h
              (sign_reply api out)
              (Request.sign hash bytes)
              h
      unfolding command_receive find_command receive
      sign_runs bytes are given =
          runs api world laws "sign" _ h (Request.sign hash bytes)
            (send_sign api world h hex hash is_hash bytes are) (receive_signature api) (λ _ _. refl)
            (weaken_answer api world laws (λ answer. gives_signature api answer) given)

      module _ (other : Bytes) (is_other : IsHash other) (expire : ℤ) (fits : IsI32 expire) {t : ℤ}
          (at : (now api world h).0 ≡ ok t) where
        abbrev params : List String
        params = text ∷ api.hex_encode_upper other ∷ print_ℤ expire ∷ []

        pub addtempkey_answered :
            {r : Reply}
            → (call "addtempkey" params h).0 ≡ ok r
            → Granted api world laws
                (read_clock ∷ h)
                (add_validator_temp_key hash other (sub_i32 expire t))
        unfolding command_receive find_command receive
        addtempkey_answered done =
            weaken_answer api world laws (λ answer. success_given api answer)
              (answered api world laws "addtempkey" _ h
                (add_validator_temp_key hash other (sub_i32 expire t))
                (made_at api world laws "addtempkey" _ h
                  (λ t. add_validator_temp_key hash other (sub_i32 expire t))
                  (send_addtempkey api world h hex hash is_hash other is_other expire fits) at)
                (receive_success api) (λ _ _. refl) done)

        pub addtempkey_runs :
            Granted api world laws
              (read_clock ∷ h)
              (add_validator_temp_key hash other (sub_i32 expire t))
            → Gives "addtempkey" params h success_reply
                (add_validator_temp_key hash other (sub_i32 expire t))
                (read_clock ∷ h)
        unfolding command_receive find_command receive
        addtempkey_runs given =
            runs api world laws "addtempkey" _ h
              (add_validator_temp_key hash other (sub_i32 expire t))
              (made_at api world laws "addtempkey" _ h
                (λ t. add_validator_temp_key hash other (sub_i32 expire t))
                (send_addtempkey api world h hex hash is_hash other is_other expire fits) at)
              (receive_success api) (λ _ _. refl)
              (weaken_answer api world laws (λ answer. gives_success api answer) given)

        pub addvalidatoraddr_answered :
            {r : Reply}
            → (call "addvalidatoraddr" params h).0 ≡ ok r
            → Granted api world laws
                (read_clock ∷ h)
                (add_validator_adnl_address hash other (sub_i32 expire t))
        unfolding command_receive find_command receive
        addvalidatoraddr_answered done =
            weaken_answer api world laws (λ answer. success_given api answer)
              (answered api world laws "addvalidatoraddr" _ h
                (add_validator_adnl_address hash other (sub_i32 expire t))
                (made_at api world laws "addvalidatoraddr" _ h
                  (λ t. add_validator_adnl_address hash other (sub_i32 expire t))
                  (send_addvalidatoraddr api world h hex hash is_hash other is_other expire fits)
                  at)
                (receive_success api) (λ _ _. refl) done)

        pub addvalidatoraddr_runs :
            Granted api world laws
              (read_clock ∷ h)
              (add_validator_adnl_address hash other (sub_i32 expire t))
            → Gives "addvalidatoraddr" params h success_reply
                (add_validator_adnl_address hash other (sub_i32 expire t))
                (read_clock ∷ h)
        unfolding command_receive find_command receive
        addvalidatoraddr_runs given =
            runs api world laws "addvalidatoraddr" _ h
              (add_validator_adnl_address hash other (sub_i32 expire t))
              (made_at api world laws "addvalidatoraddr" _ h
                (λ t. add_validator_adnl_address hash other (sub_i32 expire t))
                (send_addvalidatoraddr api world h hex hash is_hash other is_other expire fits) at)
              (receive_success api) (λ _ _. refl)
              (weaken_answer api world laws (λ answer. gives_success api answer) given)
