-- ===== src/AdnlPing/Laws.antt =====
-- How bin/adnl_ping.rs ends, and what it has asked when it succeeds.
use ever_node_tools.Prelude.{
  String, str_eq, Bool, true, false, Bool-cases, ◌≡◌, ◌⊎◌, refl, inl, inr, Option-cases, get_elem?,
  ℕ, suc, ◌<◌, arith, Option, none, some, List, [], ◌∷◌, ◌==◌, length,
}
use ever_node_tools.Outcome.{
  Outcome, ok, err, panic, Result, outcome, IsCalm, IsCalm->>=, outcome-IsCalm, map_err-IsCalm,
}
use ever_node_tools.Rust.Word.{Bytes}
use ever_node_tools.Io.Calm.{
  IsCalmIo, IsCalmIo-lift, IsCalmIo-call, IsCalmIo-event, IsCalmIo-say, IsCalmIo-says,
}
use ever_node_tools.AdnlPing.{
  Api, World, Event, get_random_peers, get_capabilities, println, read_config, local_config, to_key,
  added, overlay_or_fail, ask, ping_from, ping, reply_line, pinging, report, run, main, log_cfg,
  log_panic, init_log, local_argument,
}

module _ (api : Api) (world : World api) where
  read_config-IsCalm :
      {T : Type 0} (parse : api.File → Result T) (cfgfile cfgtype : String)
      → IsCalm (read_config api world parse cfgfile cfgtype)
  unfolding read_config
  read_config-IsCalm parse cfgfile cfgtype =
      IsCalm->>= (outcome (api.open_file cfgfile)) _ (outcome-IsCalm (api.open_file cfgfile))
        λ file. map_err-IsCalm _ (outcome (parse file)) (outcome-IsCalm (parse file))

  local_config-IsCalm : (cfgfile : Option String) → IsCalm (local_config api world cfgfile)
  unfolding local_config
  local_config-IsCalm none = outcome-IsCalm (api.with_ip_address_and_private_key_tags _ _)
  local_config-IsCalm (some cfgfile) =
      IsCalm->>= (read_config api world api.read_local cfgfile "local") _ (read_config-IsCalm _ _ _)
        λ json. outcome-IsCalm (api.from_json_config json)

  to_key-IsCalm : (bytes : Bytes) → IsCalm (to_key api world bytes)
  unfolding to_key
  to_key-IsCalm bytes = elim (Bool-cases (length bytes == 32)) [
    | inl fits ↦ rw fits tt
    | inr other ↦ rw other tt
  ]

  added-IsCalm : (answer : Option api.KeyId) → IsCalm (added api world answer)
  added-IsCalm none = tt
  added-IsCalm (some other_id) = tt

  overlay-IsCalm :
      (id : api.OverlayId) (joined : Bool) → IsCalm (overlay_or_fail api world id joined)
  overlay-IsCalm id true = tt
  overlay-IsCalm id false = tt

  ask-IsCalmIo :
      (other_id : api.KeyId) (ip_addr : String) (overlay_id : api.OverlayId)
      → IsCalmIo (ask api world other_id ip_addr overlay_id)
  unfolding ask
  ask-IsCalmIo other_id ip_addr overlay_id =
      IsCalmIo-say (println (pinging api world other_id ip_addr "GetRandomPeers")) tt _ λ _.
        IsCalmIo-event (get_random_peers other_id overlay_id)
          (λ h. world.random_peers h other_id overlay_id) _
          λ peers. IsCalmIo-say (println (reply_line api world api.debug_peers peers)) tt _ λ _.
            IsCalmIo-say (println (pinging api world other_id ip_addr "GetCapabilities")) tt _ λ _.
              IsCalmIo-event (get_capabilities other_id overlay_id)
                (λ h. world.capabilities h other_id overlay_id) _
                λ reply.
                  IsCalmIo-says (println (reply_line api world api.debug_capabilities reply)) tt

  ping_from-IsCalmIo :
      (pub_key ip_addr : String) (ip : api.IpAddress) (file_hash : Bytes) (adnl : api.Adnl)
      → IsCalmIo (ping_from api world pub_key ip_addr ip file_hash adnl)
  unfolding ping_from
  ping_from-IsCalmIo pub_key ip_addr ip file_hash adnl =
      IsCalmIo-call (api.with_adnl_node_and_zero_state adnl file_hash _) _ λ overlay.
        IsCalmIo-call (api.calc_overlay_short_id overlay _ _) _ λ overlay_id.
          IsCalmIo-event _ world.started _ λ done.
            IsCalmIo-event _ (λ h. world.overlay_added h overlay_id) _
              λ joined.
                IsCalmIo-lift (overlay_or_fail api world overlay_id joined) _
                  (overlay-IsCalm overlay_id joined)
                  λ done'. IsCalmIo-call (api.key_by_tag adnl _) _ λ local_key.
                    IsCalmIo-call (api.base64_decode pub_key) _ λ bytes.
                      IsCalmIo-lift (to_key api world bytes) _ (to_key-IsCalm bytes) λ other_key.
                        IsCalmIo-event _
                          (λ h. world.peer_added h (api.key_id local_key) ip other_key) _
                          λ answer.
                            IsCalmIo-lift (added api world answer) _ (added-IsCalm answer)
                              λ other_id. ask-IsCalmIo other_id ip_addr overlay_id

  ping-IsCalmIo :
      (pub_key ip_addr global_cfgfile : String) (local_cfgfile : Option String)
      → IsCalmIo (ping api world pub_key ip_addr global_cfgfile local_cfgfile)
  unfolding ping
  ping-IsCalmIo pub_key ip_addr global_cfgfile local_cfgfile =
      IsCalmIo-lift (read_config api world api.read_global global_cfgfile "global") _
        (read_config-IsCalm _ _ _)
        λ global_cfg. IsCalmIo-call (api.zero_state_file_hash global_cfg) _ λ file_hash.
          IsCalmIo-call (api.from_versioned_string ip_addr) _ λ ip.
            IsCalmIo-event _ world.runtime _ λ done.
              IsCalmIo-lift (local_config api world local_cfgfile) _
                (local_config-IsCalm local_cfgfile)
                λ config.
                  IsCalmIo-event _ (λ h. world.node h config) _
                    λ adnl. ping_from-IsCalmIo pub_key ip_addr ip file_hash adnl

  reported :
      (result : Outcome (Unit {0})) (h : List (Event api))
      → IsCalm result
      → (report api world result h).0 ≡ ok tt
  reported (ok done) h calm = refl
  reported (err e) h calm = refl
  reported (panic e) h calm = elim calm [ ]

  too_many : (n m : ℕ) → m < 7 → (suc (suc (suc (suc (suc (suc (suc n)))))) == m) ≡ false
  too_many n m less = ground arith

  -- It ends normally, or with the panic of `init_log`, before anything else is done.
  abbrev pub Concludes : List (Event api) → Outcome (Unit {0}) × List (Event api) → Type 0
  Concludes h result =
      (result.0 ≡ ok tt)
      ⊎ ((world.log_started h (log_cfg api world) ≡ none)
          × (result ≡ (panic (log_panic api world), init_log (log_cfg api world) ∷ h)))

  run_ends :
      (args : List String) (pub_key ip_addr global_cfgfile : String) (local_cfgfile : Option String)
      (h : List (Event api))
      → get_elem? args 1 ≡ some pub_key
      → get_elem? args 2 ≡ some ip_addr
      → get_elem? args 3 ≡ some global_cfgfile
      → Concludes h (run api world args local_cfgfile h)
  unfolding run IsCalmIo
  run_ends args pub_key ip_addr global_cfgfile local_cfgfile h e1 e2 e3 =
      elim (Option-cases (world.log_started h (log_cfg api world))) [
        | inl fails ↦ inr (fails, rw fails refl)
        | inr (done, starts) ↦ inl (
            rw (starts, e1, e2, e3)
              (reported _ _ (ping-IsCalmIo pub_key ip_addr global_cfgfile local_cfgfile _)))
      ]

  -- `main` of bin/adnl_ping.rs ends normally, or by a panic of `init_log` before anything else is
  -- done, whatever its arguments, the files and the answers of the network are: no argument is looked
  -- up that is not there.
  pub ping_main_ends :
      (args : List String) (h : List (Event api)) → Concludes h (main api world args h)
  unfolding main local_argument
  ping_main_ends [] h = inl refl
  ping_main_ends (p ∷ []) h = inl refl
  ping_main_ends (p ∷ a ∷ []) h = inl refl
  ping_main_ends (p ∷ a ∷ b ∷ []) h = inl refl
  ping_main_ends (p ∷ a ∷ b ∷ c ∷ []) h = run_ends (p ∷ a ∷ b ∷ c ∷ []) a b c none h refl refl refl
  ping_main_ends (p ∷ a ∷ b ∷ c ∷ d ∷ []) h = inl refl
  ping_main_ends (p ∷ a ∷ b ∷ c ∷ flag ∷ e ∷ []) h = elim (Bool-cases (str_eq flag "--config")) [
    | inl given ↦
        rw given (run_ends (p ∷ a ∷ b ∷ c ∷ flag ∷ e ∷ []) a b c (some e) h refl refl refl)
    | inr other ↦ rw other (inl refl)
  ]
  ping_main_ends (p ∷ a ∷ b ∷ c ∷ d ∷ e ∷ f ∷ rest) h =
      rw (too_many (length rest) 6 (omega arith), too_many (length rest) 4 (omega arith)) (inl refl)
