-- ===== src/DhtScan/Scan.antt =====
-- `scan` and `main` of bin/dhtscan.rs. The start of the log leaves no event.
pub mod Laws
pub mod Ends
use ever_node_tools.Prelude.{
  ℕ, String, ◌<>◌, Bool, true, false, Option, none, some, List, [], ◌∷◌, ◌++◌, length,
  if◌then◌else◌,
}
use ever_node_tools.Prelude.Int.{ℤ, pos, negsuc}
use ever_node_tools.Outcome.{Outcome, ok, err, panic, outcome}
use ever_node_tools.Io.{Io, pure, fail, lift, perform, ◌>>=◌, ◌>>◌}
use ever_node_tools.DhtScan.Args.{Options, read_args, no_options}
use ever_node_tools.DhtScan.Net.{
  Api, Event, World, scanning, failed, usage, add_peer, find_dht_nodes,
}
use ever_node_tools.DhtScan.Open.{Setup, start_all}
use ever_node_tools.DhtScan.Overlay.{say, scan_overlay}
use ever_node_tools.DhtScan.Listing.{list_dht}

module _ (api : Api) (world : World api) (setup : Setup api) where
  abbrev pub valid_peer : api.Node → Option api.Peer → Io (Event api) api.Peer
  valid_peer node none = fail ("Invalid DHT peer " <> api.debug_node node)
  valid_peer node (some peer) = pure peer

  unfoldable pub add_presets : List api.Peer → List api.Node → Io (Event api) (List api.Peer)
  add_presets peers [] = pure peers
  add_presets peers (node ∷ nodes) = do
    answer ← perform (add_peer node) (λ h. outcome (world.added h node))
    peer ← valid_peer node answer
    add_presets (peers ++ peer ∷ []) nodes

  unfoldable pub ask_presets : List api.Peer → Io (Event api) (Unit {0})
  ask_presets [] = pure tt
  ask_presets (peer ∷ peers) = do
    answer ← perform (find_dht_nodes peer) (λ h. outcome (world.searched h peer))
    ask_presets peers

  abbrev pub Ended : Type 0
  Ended = Option (Unit {0})

  -- what follows a search of an overlay, if that has ended
  abbrev pub if_ended : Io (Event api) Ended → Ended → Io (Event api) Ended
  if_ended rest none = pure none
  if_ended rest (some done) = rest

  abbrev pub last_part : Bool → Bool → List api.Node → Io (Event api) Ended
  last_part jsonl search_overlay dht_nodes =
      if search_overlay
      then pure (some tt)
      else (do list_dht api world jsonl dht_nodes; pure (some tt))

  abbrev pub workchain_0 : ℕ → ℕ → Bool → Bool → Io (Event api) Ended
  workchain_0 fuel presets search_overlay use_workchain0 =
      if use_workchain0
      then scan_overlay api world fuel presets search_overlay (pos 0)
      else pure (some tt)

  -- `none` is a run whose search of an overlay goes on after `fuel` rounds
  unfoldable pub scan : ℕ → String → Bool → Bool → Bool → Io (Event api) Ended
  scan fuel cfgfile jsonl search_overlay use_workchain0 = do
    dht_nodes ← start_all api world setup cfgfile
    preset_nodes ← add_presets [] dht_nodes
    say api world scanning
    ask_presets preset_nodes
    masterchain ← scan_overlay api world fuel (length preset_nodes) search_overlay (negsuc 0)
    if_ended
        (do
          workchain ← workchain_0 fuel (length preset_nodes) search_overlay use_workchain0
          if_ended (last_part jsonl search_overlay dht_nodes) workchain)
        masterchain

  abbrev pub report : Outcome Ended → Io (Event api) (Unit {0})
  report (ok ended) = pure tt
  report (err e) = say api world (failed e)
  report (panic e) = lift (panic e)

  abbrev pub scan_options : ℕ → Options → Option String → Io (Event api) (Unit {0})
  scan_options fuel options none h = say api world usage h
  scan_options fuel options (some config) h =
      let (result, h') = scan fuel config options.jsonl options.overlay options.workchain0 h in
      report result h'

  -- `main`, with the arguments after the name of the program
  unfoldable pub main : ℕ → List String → Io (Event api) (Unit {0})
  main fuel args =
      let options = read_args no_options args in scan_options fuel options options.config
