-- ===== src/Console/Election/Trace.antt =====
-- The whole conversation of an election bid with the node.
use ever_node_tools.Prelude.{String, ◌≡◌, refl, List, [], ◌∷◌}
use ever_node_tools.Prelude.Int.{ℤ, pos}
use ever_node_tools.Outcome.{ok}
use ever_node_tools.Io.{Io, after, after_reading, returned}
use ever_node_tools.Rust.Word.{Bytes, sub_i32}
use ever_node_tools.Rust.Print.{print_ℤ}
use ever_node_tools.Console.Outside.{
  Api, World, Event, IsLawful, IsHash, read_clock, generate_key_pair, export_public_key,
  add_validator_permanent_key, add_validator_temp_key, add_validator_adnl_address, add_adnl_id,
}
use ever_node_tools.Console.Receive.{Reply}
use ever_node_tools.Console.Send.{now}
use ever_node_tools.Console.Send.Laws.{IsI32}
use ever_node_tools.Console.Client.{process_command}
use ever_node_tools.Console.Client.Answers.{sent}
use ever_node_tools.Console.Bid.{Bid}
use ever_node_tools.Console.Election.{Keys, make_keys}
use ever_node_tools.Console.Election.Steps.{
  newkey_sends, exportpub_sends, addpermkey_sends, addtempkey_sends, addadnl_sends,
  addvalidatoraddr_sends, newkey-IsHash,
}
use ever_node_tools.Console.Election.Answers.{
  Granted, Generated, Exported, newkey_answered, newkey_runs, exportpub_answered, exportpub_runs,
  addpermkey_answered, addpermkey_runs, addtempkey_answered, addtempkey_runs, addadnl_answered,
  addadnl_runs, addvalidatoraddr_answered, addvalidatoraddr_runs,
}

module _ {api : Api} (laws : IsLawful api) where
  -- What a bid does outside, newest first: first the permanent key is made, exported and announced
  -- for the time between the two dates,
  abbrev pub perm_made : Bid → Bytes → List Event → List Event
  perm_made bid perm h =
      sent laws
        (add_validator_permanent_key perm bid.elect_time (sub_i32 bid.expire_time bid.elect_time))
      ∷ sent laws (export_public_key perm)
      ∷ sent laws generate_key_pair
      ∷ h

  -- then it is the temporary key too, `t` being the time, and the ADNL key is made,
  abbrev pub temp_made : Bid → Bytes → ℤ → List Event → List Event
  temp_made bid perm t h =
      sent laws (add_validator_temp_key perm perm (sub_i32 bid.expire_time t))
      ∷ read_clock
      ∷ perm_made bid perm h

  abbrev pub adnl_made : Bid → Bytes → Bytes → ℤ → List Event → List Event
  adnl_made bid perm adnl t h =
      sent laws (add_adnl_id adnl (pos 0)) ∷ sent laws generate_key_pair ∷ temp_made bid perm t h

  -- and at the time `u` it becomes the validator's address, up to the time of the election.
  abbrev pub keys_made : Bid → Bytes → Bytes → ℤ → ℤ → List Event → List Event
  keys_made bid perm adnl t u h =
      sent laws (add_validator_adnl_address perm adnl (sub_i32 bid.elect_time u))
      ∷ read_clock
      ∷ adnl_made bid perm adnl t h

module _ (api : Api) (world : World api.Answer) (laws : IsLawful api) (bid : Bid) where
  -- What the node and the clock have to answer for the keys to be made.
  pub record AreMade (h : List Event) (keys : Keys) (t u : ℤ) : Type 0 where
    pub perm_generated : Generated api world laws h keys.perm
    pub exported : Exported api world laws (sent laws generate_key_pair ∷ h) keys.perm keys.pub_key
    pub perm_added :
        Granted api world laws
          (sent laws (export_public_key keys.perm) ∷ sent laws generate_key_pair ∷ h)
          (add_validator_permanent_key keys.perm bid.elect_time
            (sub_i32 bid.expire_time bid.elect_time))
    pub at_t : (now api world (perm_made laws bid keys.perm h)).0 ≡ ok t
    pub temp_added :
        Granted api world laws
          (read_clock ∷ perm_made laws bid keys.perm h)
          (add_validator_temp_key keys.perm keys.perm (sub_i32 bid.expire_time t))
    pub adnl_generated : Generated api world laws (temp_made laws bid keys.perm t h) keys.adnl
    pub adnl_added :
        Granted api world laws
          (sent laws generate_key_pair ∷ temp_made laws bid keys.perm t h)
          (add_adnl_id keys.adnl (pos 0))
    pub at_u : (now api world (adnl_made laws bid keys.perm keys.adnl t h)).0 ≡ ok u
    pub addr_added :
        Granted api world laws
          (read_clock ∷ adnl_made laws bid keys.perm keys.adnl t h)
          (add_validator_adnl_address keys.perm keys.adnl (sub_i32 bid.elect_time u))

module _ (api : Api) (world : World api.Answer) (laws : IsLawful api) (bid : Bid)
    (elect_fits : IsI32 bid.elect_time) (expire_fits : IsI32 bid.expire_time) where
  abbrev pub Made : List Event → Keys → List Event → Type 0
  Made h keys h' =
      (t u : ℤ) × IsHash keys.perm
      × IsHash keys.adnl
      × AreMade api world laws bid h keys t u
      × (h' ≡ keys_made laws bid keys.perm keys.adnl t u h)

  abbrev call : String → List String → Io Event Reply
  call = process_command api world

  pub make_keys_trace :
      (h : List Event) {keys : Keys} {h' : List Event}
      → make_keys api world bid h ≡ (ok keys, h')
      → Made h keys h'
  unfolding make_keys
  make_keys_trace h {keys} {h'} done =
      after (call "newkey" []) _ h done (newkey_sends api world laws h) λ new_perm e1 r1.
        let p = newkey-IsHash api world laws h new_perm e1 in
        let perm = api.hex_encode_upper new_perm.1 in
        let expire = print_ℤ bid.expire_time in
        let elect = print_ℤ bid.elect_time in
        after (call "exportpub" (perm ∷ [])) _ _ r1 (exportpub_sends api world laws _ new_perm.1 p)
          λ exported e2 r2.
            after (call "addpermkey" (perm ∷ elect ∷ expire ∷ [])) _ _ r2
              (addpermkey_sends api world laws _ new_perm.1 p bid.elect_time bid.expire_time
                elect_fits expire_fits)
              λ added e3 r3.
                after_reading (call "addtempkey" (perm ∷ perm ∷ expire ∷ [])) _ _ r3
                  (λ a.
                    addtempkey_sends api world laws _ new_perm.1 p new_perm.1 p bid.expire_time
                      expire_fits {r = a})
                  λ temp t e4 at_t r4.
                    after (call "newkey" []) _ _ r4 (newkey_sends api world laws _)
                      λ new_adnl e5 r5.
                        let q = newkey-IsHash api world laws _ new_adnl e5 in
                        let adnl = api.hex_encode_upper new_adnl.1 in
                        after (call "addadnl" (adnl ∷ "0" ∷ [])) _ _ r5
                          (addadnl_sends api world laws _ new_adnl.1 q)
                          λ id e6 r6.
                            after_reading (call "addvalidatoraddr" (perm ∷ adnl ∷ elect ∷ [])) _ _
                              r6
                              (λ a.
                                addvalidatoraddr_sends api world laws _ new_perm.1 p new_adnl.1 q
                                  bid.elect_time elect_fits {r = a})
                              λ address u e7 at_u r7. returned (Made h) r7 (
                                t,
                                u,
                                p,
                                q,
                                record {
                                  perm_generated = newkey_answered api world laws h e1;
                                  exported = exportpub_answered api world laws _ new_perm.1 p e2;
                                  perm_added =
                                      addpermkey_answered api world laws _ new_perm.1 p
                                        bid.elect_time bid.expire_time elect_fits expire_fits e3;
                                  at_t = at_t;
                                  temp_added =
                                      addtempkey_answered api world laws _ new_perm.1 p new_perm.1 p
                                        bid.expire_time expire_fits at_t e4;
                                  adnl_generated = newkey_answered api world laws _ e5;
                                  adnl_added = addadnl_answered api world laws _ new_adnl.1 q e6;
                                  at_u = at_u;
                                  addr_added =
                                      addvalidatoraddr_answered api world laws _ new_perm.1 p
                                        new_adnl.1 q bid.elect_time elect_fits at_u e7;
                                },
                                refl,
                              )

  -- With these answers the keys are made.
  pub make_keys_runs :
      (h : List Event) (keys : Keys) (t u : ℤ)
      → IsHash keys.perm
      → IsHash keys.adnl
      → AreMade api world laws bid h keys t u
      → make_keys api world bid h ≡ (ok keys, keys_made laws bid keys.perm keys.adnl t u h)
  unfolding make_keys
  make_keys_runs h keys t u p q a = rw (
    newkey_runs api world laws h a.perm_generated,
    exportpub_runs api world laws _ keys.perm p a.exported,
    addpermkey_runs api world laws _ keys.perm p bid.elect_time bid.expire_time elect_fits
        expire_fits a.perm_added,
    addtempkey_runs api world laws _ keys.perm p keys.perm p bid.expire_time expire_fits a.at_t
        a.temp_added,
    newkey_runs api world laws _ a.adnl_generated,
    addadnl_runs api world laws _ keys.adnl q a.adnl_added,
    addvalidatoraddr_runs api world laws _ keys.perm p keys.adnl q bid.elect_time elect_fits a.at_u
        a.addr_added,
  )
