-- ===== src/Console/Send/Typed.antt =====
-- That every request which a command of bin/console.rs makes is of the command's own kind, and that
-- its hashes and integers fit the fields of the TL object.
use ever_node_tools.Prelude.{
  ℕ, ◌^◌, ◌%◌, ◌<◌, ◌<>◌, String, ◌≡◌, refl, ap, List, [], ◌∷◌, Option, get_elem?, length, arith,
}
use ever_node_tools.Prelude.Int.{ℤ, pos, negsuc, ◌-ℤ◌, ◌≤ℤ◌}
use mathlib.Core.Path.{subst}
use ever_node_tools.Outcome.{Outcome, ok, err, panic, ok_or}
use ever_node_tools.Io.{Io, lift, pure, map_err, ◌>>=◌, after, after_all}
use ever_node_tools.Rust.Word.{Bytes, InRange, sub_i32, as_i32, to_u32, signed32}
use ever_node_tools.Console.Outside.{
  Api, World, Event, get_stats, get_selected_stats, get_session_stats, generate_key_pair,
  export_public_key, add_validator_permanent_key, add_validator_temp_key,
  add_validator_adnl_address, add_adnl_id, get_bundle, get_future_bundle, get_config_all,
  get_config_params, get_shard_account_state, sign, send_message, set_states_gc_interval,
}
use ever_node_tools.Console.Params.{
  insufficient, parse_int, parse_int256, parse_data, parse_blockid,
}
use ever_node_tools.Console.Params.Laws.{length-parse_int256, parse_int-InRange}
use ever_node_tools.Console.Command.{Command}
use ever_node_tools.Console.Send.{Query, now, read, with_second, send}
use ever_node_tools.Console.Send.Bounds.{send_addadnl_bounds}

abbrev IsI32 : ℤ → Type 0
IsI32 = InRange (2 ^ 31)

abbrev IsKey : Bytes → Type 0
IsKey hash = length hash ≡ 32

signed32-InRange : (w : ℕ) → w < 2 ^ 32 → IsI32 (signed32 w)
unfolding signed32
signed32-InRange w h = ground arith

to_u32-lt : (z : ℤ) → to_u32 z < 2 ^ 32
unfolding to_u32
to_u32-lt (pos n) = omega arith
to_u32-lt (negsuc n) = omega arith

as_i32-InRange : (n : ℕ) → IsI32 (as_i32 n)
unfolding as_i32
as_i32-InRange n = signed32-InRange (n % 2 ^ 32) (omega arith)

sub_i32-InRange : (a b : ℤ) → IsI32 (sub_i32 a b)
unfolding sub_i32
sub_i32-InRange a b = signed32-InRange (to_u32 (a -ℤ b)) (to_u32-lt (a -ℤ b))

module _ (api : Api) (world : World api.Answer) where
  -- The kind of request that is the command's, with fields that fit.
  abbrev pub Fits : Command → Query api → Type 0
  Fits Command.get_stats get_stats = Unit
  Fits Command.get_selected_stats (get_selected_stats filter) = filter ≡ "*"
  Fits Command.get_session_stats get_session_stats = Unit
  Fits Command.new_keypair generate_key_pair = Unit
  Fits Command.export_pub (export_public_key hash) = IsKey hash
  Fits Command.sign (sign hash bytes) = IsKey hash
  Fits Command.add_validator_perm_key (add_validator_permanent_key hash date ttl) =
      IsKey hash × IsI32 date × IsI32 ttl
  Fits Command.add_validator_temp_key (add_validator_temp_key permanent hash ttl) =
      IsKey permanent × IsKey hash × IsI32 ttl
  Fits Command.add_validator_adnl_addr (add_validator_adnl_address permanent hash ttl) =
      IsKey permanent × IsKey hash × IsI32 ttl
  Fits Command.add_adnl_addr (add_adnl_id hash category) =
      IsKey hash × (pos 0 ≤ℤ category) × (category ≤ℤ pos 15)
  Fits Command.bundle (get_bundle id) = Unit
  Fits Command.future_bundle (get_future_bundle []) = ⊥
  Fits Command.future_bundle (get_future_bundle (id ∷ [])) = Unit
  Fits Command.future_bundle (get_future_bundle (id ∷ second ∷ [])) = Unit
  Fits Command.send_message (send_message body) = Unit
  Fits Command.get_blockchain_config (get_config_all mode id) = mode ≡ 0
  Fits Command.get_config (get_config_params mode id (number ∷ [])) = (mode ≡ 0) × IsI32 number
  Fits Command.get_account (get_shard_account_state address) = Unit
  Fits Command.get_account_state (get_shard_account_state address) = Unit
  Fits Command.set_states_gc_interval (set_states_gc_interval interval) = Unit
  Fits _ _ = ⊥

  fit :
      (c : Command) {q q' : Query api} {h h' : List Event}
      → Fits c q
      → pure {E = Event} q h ≡ (ok q', h')
      → Fits c q'
  fit c {q} {q'} fits e = let same : q ≡ q' = cc (ap (λ p. p.0) e) in subst (Fits c) same fits

  module _ {A : Type 0} {G : Type 0} {h : List Event} {a : A} {h' : List Event} where
    after_key :
        (params : Option String) (name : String) (f : Bytes → Io Event A)
        → (lift (parse_int256 api.codec params name) >>= f) h ≡ (ok a, h')
        → ((hash : Bytes) → IsKey hash → f hash h ≡ (ok a, h') → G)
        → G
    after_key params name f done rest =
        after (lift (parse_int256 api.codec params name)) f h done refl
          λ hash e later. rest hash (length-parse_int256 api.codec _ _ e) later

    after_int :
        (params : Option String) (name : String) (f : ℤ → Io Event A)
        → (lift (parse_int params name) >>= f) h ≡ (ok a, h')
        → ((n : ℤ) → IsI32 n → f n h ≡ (ok a, h') → G)
        → G
    after_int params name f done rest =
        after (lift (parse_int params name)) f h done refl
          λ n e later. rest n (parse_int-InRange _ _ e) later

  with_second-Fits :
      (first : api.BlockId) (second : Outcome api.BlockId) {ids : List api.BlockId}
      → with_second api world first second ≡ ok ids
      → Fits Command.future_bundle (get_future_bundle ids)
  with_second-Fits first (ok second) {ids} e =
      let same : first ∷ second ∷ [] ≡ ids = cc in
      subst (λ l. Fits Command.future_bundle (get_future_bundle l)) same tt
  with_second-Fits first (err text) {ids} e =
      let same : first ∷ [] ≡ ids = cc in
      subst (λ l. Fits Command.future_bundle (get_future_bundle l)) same tt
  with_second-Fits first (panic text) e = cc

  -- A command that makes a request makes one of its own kind: its hashes have 32 bytes, its integers
  -- are in the range of 32 bits, a category is from 0 to 15, a future bundle has one or two blocks, and
  -- the filter and the modes are the constants of the source.
  pub send-Fits :
      (c : Command) (params : List String) (h : List Event) {q : Query api} {h' : List Event}
      → send api world c params h ≡ (ok q, h')
      → Fits c q
  unfolding send
  send-Fits Command.get_stats params h e = fit Command.get_stats tt e
  send-Fits Command.get_selected_stats params h e = fit Command.get_selected_stats refl e
  send-Fits Command.get_session_stats params h e = fit Command.get_session_stats tt e
  send-Fits Command.new_keypair params h e = fit Command.new_keypair tt e
  send-Fits Command.export_pub params h e =
      after_key _ _ _ e λ hash key made. fit Command.export_pub key made
  send-Fits Command.sign params h e = after_key _ _ _ e λ hash key e1.
      after (lift (parse_data api.codec (get_elem? params 1) "data")) _ h e1 refl
        λ bytes parsed made. fit Command.sign key made
  send-Fits Command.add_validator_perm_key params h e = after_key _ _ _ e λ hash key e1.
      after_int _ _ _ e1 λ date in_range e2. after_int _ _ _ e2 λ expire expires made.
        fit Command.add_validator_perm_key (key, in_range, sub_i32-InRange expire date) made
  send-Fits Command.add_validator_temp_key params h e = after_key _ _ _ e λ permanent first e1.
      after_key _ _ _ e1 λ hash second e2. after_int _ _ _ e2 λ expire expires e3.
        after_all (now api world) _ h e3 λ time g clock made.
          fit Command.add_validator_temp_key (first, second, sub_i32-InRange expire time) made
  send-Fits Command.add_validator_adnl_addr params h e = after_key _ _ _ e λ permanent first e1.
      after_key _ _ _ e1 λ hash second e2. after_int _ _ _ e2 λ expire expires e3.
        after_all (now api world) _ h e3 λ time g clock made.
          fit Command.add_validator_adnl_addr (first, second, sub_i32-InRange expire time) made
  send-Fits Command.add_adnl_addr params h e =
      let (hash, category, made, key, above, below) =
        (send_addadnl_bounds api world params h e).0 in
      rw made (key, above, below)
  send-Fits Command.bundle params h e =
      after (lift (parse_blockid api (get_elem? params 0) "block_id")) _ h e refl
        λ id parsed made. fit Command.bundle tt made
  send-Fits Command.future_bundle params h e =
      after (lift (parse_blockid api (get_elem? params 0) "block_id")) _ h e refl λ first parsed e1.
        after
          (lift (with_second api world first (parse_blockid api (get_elem? params 1) "block_id"))) _
          h e1 refl λ ids both made. fit Command.future_bundle (with_second-Fits first _ both) made
  send-Fits Command.send_message params h e =
      after (lift (ok_or insufficient (get_elem? params 0))) _ h e refl λ name given e1.
        after_all
          (map_err (λ x. "Can't read file " <> (name <> (" with message: " <> x)))
            (read api world name))
          _ h e1 λ body g done made. fit Command.send_message tt made
  send-Fits Command.get_blockchain_config params h e = fit Command.get_blockchain_config refl e
  send-Fits Command.get_config params h e =
      after_int _ _ _ e λ number in_range made. fit Command.get_config (refl, in_range) made
  send-Fits Command.get_account params h e =
      after (lift (ok_or insufficient (get_elem? params 0))) _ h e refl
        λ address given made. fit Command.get_account tt made
  send-Fits Command.get_account_state params h e =
      after (lift (ok_or insufficient (get_elem? params 0))) _ h e refl
        λ address given made. fit Command.get_account_state tt made
  send-Fits Command.set_states_gc_interval params h e =
      after (lift (ok_or insufficient (get_elem? params 0))) _ h e refl λ text given e1.
        after
          (map_err (λ x. "can't parse <milliseconds>: " <> x) (lift (api.interval_from_str text))) _
          h e1 refl λ interval parsed made. fit Command.set_states_gc_interval tt made
