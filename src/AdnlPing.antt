-- ===== src/AdnlPing.antt =====
-- bin/adnl_ping.rs: two queries to a node of the network, and what it answers.
pub mod Laws
pub mod Asked
pub mod Ends
use ever_node_tools.Prelude.{
  ℕ, ◌-◌, ◌^◌, String, ◌<>◌, str_eq, Bool, true, false, Option, none, some, List, [], ◌∷◌, ◌==◌,
  length, get_elem?, if◌then◌else◌,
}
use ever_node_tools.Prelude.Int.{ℤ, negsuc}
use ever_node_tools.Outcome.{Outcome, ok, err, panic, map_err, expect_some, Result, outcome}
use ever_node_tools.Outcome
use ever_node_tools.Io.{Io, pure, fail, lift, perform, ◌>>=◌, ◌>>◌}
use ever_node_tools.Rust.Word.{Bytes}

-- What the program calls of the libraries without effects.
pub record Api : Type 1 where
  pub File : Type 0
  pub open_file : String → Result File
  pub Global : Type 0
  pub read_global : File → Result Global
  pub zero_state_file_hash : Global → Result Bytes
  pub Local : Type 0
  pub read_local : File → Result Local
  pub NodeConfig : Type 0
  pub from_json_config : Local → Result NodeConfig
  pub with_ip_address_and_private_key_tags : String → List ℕ → Result NodeConfig
  pub IpAddress : Type 0
  pub from_versioned_string : String → Result IpAddress
  pub Adnl : Type 0
  pub Overlay : Type 0
  pub with_adnl_node_and_zero_state : Adnl → Bytes → ℕ → Result Overlay
  pub OverlayId : Type 0
  pub calc_overlay_short_id : Overlay → ℤ → ℤ → Result OverlayId
  pub overlay_id_text : OverlayId → String
  pub Key : Type 0
  pub key_by_tag : Adnl → ℕ → Result Key
  pub base64_decode : String → Result Bytes
  pub from_public_key : Bytes → Key
  pub KeyId : Type 0
  pub key_id : Key → KeyId
  pub key_id_text : KeyId → String
  -- the answers, of whose types only the debug text is used
  pub Peers : Type 0
  pub debug_peers : Peers → String
  pub Capabilities : Type 0
  pub debug_capabilities : Capabilities → String

-- What it does on the network, and the lines that it prints.
pub data Event (api : Api) : Type 0 where
  init_log : String → Event api
  new_runtime : Event api
  with_config : api.NodeConfig → Event api
  start : Event api
  add_local_workchain_overlay : api.OverlayId → Event api
  add_peer : api.KeyId → api.IpAddress → api.Key → Event api
  get_random_peers : api.KeyId → api.OverlayId → Event api
  get_capabilities : api.KeyId → api.OverlayId → Event api
  println : String → Event api

-- The answers to these, which may depend on all that happened before. `init_log` is not in the
-- repository; where it gives `none`, it panics.
pub record World (api : Api) : Type 0 where
  pub log_started : List (Event api) → String → Option (Unit {0})
  pub runtime : List (Event api) → Result (Unit {0})
  pub node : List (Event api) → api.NodeConfig → Result api.Adnl
  pub started : List (Event api) → Result (Unit {0})
  pub overlay_added : List (Event api) → api.OverlayId → Result Bool
  pub peer_added :
      List (Event api) → api.KeyId → api.IpAddress → api.Key → Result (Option api.KeyId)
  pub random_peers : List (Event api) → api.KeyId → api.OverlayId → Result (Option api.Peers)
  pub capabilities : List (Event api) → api.KeyId → api.OverlayId → Result (Option api.Capabilities)

-- `IP` and `KEY_TAG`
abbrev local_ip : String
local_ip = "0.0.0.0:4191"

abbrev key_tag : ℕ
key_tag = 2

module _ (api : Api) (world : World api) where
  unfoldable pub read_config : {T : Type 0} → (api.File → Result T) → String → String → Outcome T
  read_config parse cfgfile cfgtype = Outcome.◌>>=◌ (outcome (api.open_file cfgfile)) λ file.
      map_err
        (λ e. "Cannot read " <> (cfgtype <> (" config from file " <> (cfgfile <> (": " <> e)))))
        (outcome (parse file))

  abbrev pub say : String → Io (Event api) (Unit {0})
  say text = perform (println text) (λ h. ok tt)

  -- `local_cfg`
  unfoldable pub local_config : Option String → Outcome api.NodeConfig
  unfolding read_config
  local_config none = outcome (api.with_ip_address_and_private_key_tags local_ip (key_tag ∷ []))
  local_config (some cfgfile) =
      Outcome.◌>>=◌ (read_config api.read_local cfgfile "local")
        λ json. outcome (api.from_json_config json)

  -- `try_into` of the decoded key
  unfoldable pub to_key : Bytes → Outcome api.Key
  to_key bytes =
      if length bytes == 32
      then ok (api.from_public_key bytes)
      else err "could not convert slice to array"

  abbrev pub reply_line : {R : Type 0} → (R → String) → Option R → String
  reply_line debug none = "No response to ping"
  reply_line debug (some reply) = "Got response: " <> debug reply

  abbrev pub pinging : api.KeyId → String → String → String
  pinging other_id ip_addr query =
      "Pinging " <> (api.key_id_text other_id <> ("/" <> (ip_addr <> (" by " <> query))))

  -- the two queries
  unfoldable pub ask : api.KeyId → String → api.OverlayId → Io (Event api) (Unit {0})
  ask other_id ip_addr overlay_id = do
    say (pinging other_id ip_addr "GetRandomPeers")
    peers ←
        perform (get_random_peers other_id overlay_id)
          (λ h. outcome (world.random_peers h other_id overlay_id))
    say (reply_line api.debug_peers peers)
    say (pinging other_id ip_addr "GetCapabilities")
    reply ←
        perform (get_capabilities other_id overlay_id)
          (λ h. outcome (world.capabilities h other_id overlay_id))
    say (reply_line api.debug_capabilities reply)

  abbrev pub added : Option api.KeyId → Outcome api.KeyId
  added none = err "Cannot add peer to ADNL"
  added (some other_id) = ok other_id

  abbrev pub overlay_or_fail : api.OverlayId → Bool → Outcome (Unit {0})
  overlay_or_fail overlay_id true = ok tt
  overlay_or_fail overlay_id false = err ("Cannot add overlay " <> api.overlay_id_text overlay_id)

  -- the part that is done with the node
  unfoldable pub ping_from :
      String → String → api.IpAddress → Bytes → api.Adnl → Io (Event api) (Unit {0})
  unfolding to_key ask
  ping_from pub_key ip_addr ip file_hash adnl = do
    overlay ← lift (outcome (api.with_adnl_node_and_zero_state adnl file_hash key_tag))
    overlay_id ← lift (outcome (api.calc_overlay_short_id overlay (negsuc 0) (negsuc (2 ^ 63 - 1))))
    perform start (λ h. outcome (world.started h))
    joined ←
        perform (add_local_workchain_overlay overlay_id)
          (λ h. outcome (world.overlay_added h overlay_id))
    lift (overlay_or_fail overlay_id joined)
    local_key ← lift (outcome (api.key_by_tag adnl key_tag))
    bytes ← lift (outcome (api.base64_decode pub_key))
    other_key ← lift (to_key bytes)
    answer ←
        perform (add_peer (api.key_id local_key) ip other_key)
          (λ h. outcome (world.peer_added h (api.key_id local_key) ip other_key))
    other_id ← lift (added answer)
    ask other_id ip_addr overlay_id

  unfoldable pub ping : String → String → String → Option String → Io (Event api) (Unit {0})
  unfolding read_config local_config ping_from
  ping pub_key ip_addr global_cfgfile local_cfgfile = do
    global_cfg ← lift (read_config api.read_global global_cfgfile "global")
    file_hash ← lift (outcome (api.zero_state_file_hash global_cfg))
    ip ← lift (outcome (api.from_versioned_string ip_addr))
    perform new_runtime (λ h. outcome (world.runtime h))
    config ← lift (local_config local_cfgfile)
    adnl ← perform (with_config config) (λ h. outcome (world.node h config))
    ping_from pub_key ip_addr ip file_hash adnl

  -- `unwrap_or_else`
  abbrev pub report : Outcome (Unit {0}) → Io (Event api) (Unit {0})
  report (ok done) = pure tt
  report (err e) = say ("ADNL pinging error: " <> e)
  report (panic e) = lift (panic e)

  abbrev pub log_cfg : String
  log_cfg = "./common/config/log_cfg.yml"

  abbrev pub log_panic : String
  log_panic = "init_log"

  abbrev pub start_log : Io (Event api) (Unit {0})
  start_log = perform (init_log log_cfg) (λ h. expect_some log_panic (world.log_started h log_cfg))

  -- the indexing `args[n]`
  abbrev pub arg : List String → ℕ → Outcome String
  arg args n = expect_some "index out of bounds" (get_elem? args n)

  -- `ping(args[1], args[2], args[3], local_config).unwrap_or_else(...)`
  abbrev pub ping_reported : Option String → String → String → String → Io (Event api) (Unit {0})
  ping_reported local_cfgfile pub_key ip_addr global_cfgfile h =
      let (result, g) = ping pub_key ip_addr global_cfgfile local_cfgfile h in report result g

  unfoldable pub run : List String → Option String → Io (Event api) (Unit {0})
  unfolding ping
  run args local_cfgfile = do
    start_log
    pub_key ← lift (arg args 1)
    ip_addr ← lift (arg args 2)
    global_cfgfile ← lift (arg args 3)
    ping_reported local_cfgfile pub_key ip_addr global_cfgfile

  abbrev pub usage : String
  usage =
      "Usage: adnl_ping <pub-key> <ip-addr> <path-to-global-config> [--config <path-to-local-config>]"

  -- the argument after the flag, or `none` where the usage is printed
  abbrev pub flagged : List String → String → Outcome (Option (Option String))
  flagged args flag =
      if str_eq flag "--config"
      then Outcome.◌>>=◌ (arg args 5) (λ cfgfile. ok (some (some cfgfile)))
      else ok none

  -- `local_config` of `main`
  unfoldable pub local_argument : List String → Outcome (Option (Option String))
  local_argument args =
      if length args == 6
      then Outcome.◌>>=◌ (arg args 4) (flagged args)
      else if length args == 4
      then ok (some none)
      else ok none

  abbrev pub run_or_usage : List String → Option (Option String) → Io (Event api) (Unit {0})
  run_or_usage args none = say usage
  run_or_usage args (some local_cfgfile) = run args local_cfgfile

  -- The first argument is the program's name.
  unfoldable pub main : List String → Io (Event api) (Unit {0})
  unfolding run local_argument
  main args = do local_cfgfile ← lift (local_argument args); run_or_usage args local_cfgfile
