-- ===== src/DhtScan/Scan/Laws.antt =====
-- How bin/dhtscan.rs ends.
use ever_node_tools.DhtScan.Calm.{quiet, scan_overlay-IsCalmIo, list_dht-IsCalmIo}
use ever_node_tools.Prelude.{
  ℕ, String, ◌≡◌, refl, Bool, true, false, length, Option, none, some, List, [], ◌∷◌, ◌++◌,
}
use ever_node_tools.Prelude.Int.{pos, negsuc}
use ever_node_tools.Outcome.{
  Outcome, ok, err, panic, outcome, IsCalm, IsCalm->>=, outcome-IsCalm, map_err-IsCalm,
}
use ever_node_tools.Rust.Word.{Bytes}
use ever_node_tools.Io.{Io}
use ever_node_tools.Io.Calm.{
  IsCalmIo, IsCalmIo->>=, IsCalmIo-lift, IsCalmIo-call, IsCalmIo-event, IsCalmIo-say,
}
use ever_node_tools.DhtScan.Args.{read_args, no_options, Options}
use ever_node_tools.DhtScan.Net.{
  Api, Event, World, start, add_peer, find_dht_nodes, print, scanning,
}
use ever_node_tools.DhtScan.Open.{Setup, read_global, make_nodes, start_all}
use ever_node_tools.DhtScan.Overlay.{scan_overlay}
use ever_node_tools.DhtScan.Listing.{list_dht}
use ever_node_tools.DhtScan.Scan.{
  valid_peer, add_presets, ask_presets, if_ended, last_part, workchain_0, scan, report,
  scan_options, main,
}

module _ (api : Api) (world : World api) (setup : Setup api) where
  pub start_all-IsCalmIo : (cfgfile : String) → IsCalmIo (start_all api world setup cfgfile)
  unfolding start_all read_global make_nodes
  start_all-IsCalmIo cfgfile =
      IsCalmIo-lift (read_global api world setup cfgfile) _
        (IsCalm->>= (outcome (setup.open_file cfgfile)) _ (outcome-IsCalm (setup.open_file cfgfile))
          λ file.
            map_err-IsCalm _ (outcome (setup.from_reader file))
              (outcome-IsCalm (setup.from_reader file)))
        λ config. IsCalmIo-call (setup.zero_state_file_hash config) _ λ zero_state.
          IsCalmIo-call (setup.get_dht_nodes_configs config) _ λ dht_nodes.
            IsCalmIo-lift (make_nodes api world setup zero_state) _ (made zero_state)
              λ nodes. IsCalmIo-event start world.started _ λ _. quiet api world dht_nodes
    where
      made : (zero_state : Bytes) → IsCalm (make_nodes api world setup zero_state)
      made zero_state =
          IsCalm->>= (outcome setup.new_runtime) _ (outcome-IsCalm setup.new_runtime) λ rt.
            IsCalm->>= (outcome (setup.with_ip_address_and_private_key_tags _ _)) _
              (outcome-IsCalm (setup.with_ip_address_and_private_key_tags _ _))
              λ config.
                IsCalm->>= (outcome (setup.with_config config)) _
                  (outcome-IsCalm (setup.with_config config))
                  λ adnl.
                    IsCalm->>= (outcome (setup.with_adnl_node adnl _)) _
                      (outcome-IsCalm (setup.with_adnl_node adnl _))
                      λ dht.
                        IsCalm->>= (outcome (setup.with_adnl_node_and_zero_state adnl zero_state _))
                          _ (outcome-IsCalm (setup.with_adnl_node_and_zero_state adnl zero_state _))
                          λ overlay. tt

  valid_peer-IsCalmIo :
      (node : api.Node) (answer : Option api.Peer)
      → IsCalmIo (valid_peer api world setup node answer)
  unfolding IsCalmIo
  valid_peer-IsCalmIo node none h = tt
  valid_peer-IsCalmIo node (some peer) h = tt

  pub add_presets-IsCalmIo :
      (peers : List api.Peer) (nodes : List api.Node)
      → IsCalmIo (add_presets api world setup peers nodes)
  unfolding add_presets
  add_presets-IsCalmIo peers [] = quiet api world peers
  add_presets-IsCalmIo peers (node ∷ nodes) =
      IsCalmIo-event (add_peer node) (λ h. world.added h node) _
        λ answer.
          IsCalmIo->>= (valid_peer api world setup node answer) _ (valid_peer-IsCalmIo node answer)
            λ peer. add_presets-IsCalmIo (peers ++ peer ∷ []) nodes

  pub ask_presets-IsCalmIo : (peers : List api.Peer) → IsCalmIo (ask_presets api world setup peers)
  unfolding ask_presets
  ask_presets-IsCalmIo [] = quiet api world tt
  ask_presets-IsCalmIo (peer ∷ peers) =
      IsCalmIo-event (find_dht_nodes peer) (λ h. world.searched h peer) _
        λ answer. ask_presets-IsCalmIo peers

  if_ended-IsCalmIo :
      (rest : Io (Event api) (Option (Unit {0}))) (ended : Option (Unit {0}))
      → IsCalmIo rest
      → IsCalmIo (if_ended api world setup rest ended)
  if_ended-IsCalmIo rest none calm = quiet api world none
  if_ended-IsCalmIo rest (some done) calm = calm

  last_part-IsCalmIo :
      (jsonl search_overlay : Bool) (dht_nodes : List api.Node)
      → IsCalmIo (last_part api world setup jsonl search_overlay dht_nodes)
  last_part-IsCalmIo jsonl true dht_nodes = quiet api world (some tt)
  last_part-IsCalmIo jsonl false dht_nodes =
      IsCalmIo->>= (list_dht api world jsonl dht_nodes) _
        (list_dht-IsCalmIo api world jsonl dht_nodes) λ _. quiet api world (some tt)

  workchain_0-IsCalmIo :
      (fuel presets : ℕ) (search_overlay use_workchain0 : Bool)
      → IsCalmIo (workchain_0 api world setup fuel presets search_overlay use_workchain0)
  workchain_0-IsCalmIo fuel presets search_overlay true =
      scan_overlay-IsCalmIo api world fuel presets search_overlay (pos 0)
  workchain_0-IsCalmIo fuel presets search_overlay false = quiet api world (some tt)

  scan-IsCalmIo :
      (fuel : ℕ) (cfgfile : String) (jsonl search_overlay use_workchain0 : Bool)
      → IsCalmIo (scan api world setup fuel cfgfile jsonl search_overlay use_workchain0)
  unfolding scan
  scan-IsCalmIo fuel cfgfile jsonl search_overlay use_workchain0 =
      IsCalmIo->>= (start_all api world setup cfgfile) _ (start_all-IsCalmIo cfgfile) λ dht_nodes.
        IsCalmIo->>= (add_presets api world setup [] dht_nodes) _
          (add_presets-IsCalmIo [] dht_nodes)
          λ presets. IsCalmIo-say (print scanning) tt _ λ _.
            IsCalmIo->>= (ask_presets api world setup presets) _ (ask_presets-IsCalmIo presets) λ _.
              IsCalmIo->>= (scan_overlay api world fuel (length presets) search_overlay (negsuc 0))
                _ (scan_overlay-IsCalmIo api world fuel (length presets) search_overlay (negsuc 0))
                λ ended. if_ended-IsCalmIo _ ended (
                  IsCalmIo->>=
                    (workchain_0 api world setup fuel (length presets) search_overlay
                      use_workchain0)
                    _ (workchain_0-IsCalmIo fuel (length presets) search_overlay use_workchain0)
                    λ ended'.
                      if_ended-IsCalmIo _ ended'
                        (last_part-IsCalmIo jsonl search_overlay dht_nodes))

  reported :
      (result : Outcome (Option (Unit {0}))) (h : List (Event api))
      → IsCalm result
      → (report api world setup result h).0 ≡ ok tt
  reported (ok ended) h calm = refl
  reported (err e) h calm = refl
  reported (panic e) h calm = elim calm [ ]

  options_end :
      (fuel : ℕ) (options : Options) (config : Option String) (h : List (Event api))
      → (scan_options api world setup fuel options config h).0 ≡ ok tt
  options_end fuel options none h = refl
  options_end fuel options (some config) h =
      unfold IsCalmIo in
      reported _ _ (scan-IsCalmIo fuel config options.jsonl options.overlay options.workchain0 h)

  -- Where `-` on `usize` wraps and the log is started, `main` of bin/dhtscan.rs is never ended by a
  -- panic within any number of rounds, whatever its arguments, the files and the answers of the network
  -- are.
  pub dhtscan_main_ends :
      (fuel : ℕ) (args : List String) (h : List (Event api))
      → (main api world setup fuel args h).0 ≡ ok tt
  unfolding main
  dhtscan_main_ends fuel args h =
      options_end fuel (read_args no_options args) (read_args no_options args).config h
