-- ===== src/DhtScan/Net.antt =====
-- What bin/dhtscan.rs calls of the DHT and overlay nodes, and what it prints.
use ever_node_tools.Prelude.{ℕ, String, ◌<>◌, Bool, Option, List}
use ever_node_tools.Prelude.Int.{ℤ}
use ever_node_tools.Outcome.{Result}
use ever_node_tools.Rust.Print.{print_ℕ, print_ℤ}
use ever_node_tools.Json.{Json}
use ever_node_tools.DhtNode.{NodeApi}

pub record Api : Type 1 where
  pub nodes : NodeApi
  pub open nodes use *
  -- equality of nodes' ids, and of keys' ids
  pub same_node : Node → Node → Bool
  pub KeyId : Type 0
  pub key_id : Key → KeyId
  pub same : KeyId → KeyId → Bool
  pub OverlayId : Type 0
  pub overlay_text : OverlayId → String
  pub Ip : Type 0
  pub ip_text : Ip → String
  pub debug_node : Node → String
  -- where a search for overlay nodes goes on
  pub Iter : Type 0
  pub Peer : Type 0
  pub to_string : Json → Result String
  pub to_string_pretty : Json → Result String

-- The lines that are printed.
pub data Line (api : Api) : Type 0 where
  scanning : Line api
  found_overlay : ℕ → api.OverlayId → ℤ → Line api
  found_dht : ℕ → Line api
  overlay_header : api.OverlayId → ℤ → Line api
  overlay_node : api.Ip → api.Node → Line api
  overlay_total : ℕ → Line api
  dht_header : Line api
  dht_node : api.Node → String → Line api
  dht_total : ℕ → Line api
  no_dht : Line api
  failed : String → Line api
  usage : Line api

module _ (api : Api) where
  unfoldable pub text : Line api → String
  text scanning = "Scanning DHT..."
  text (found_overlay n id workchain) =
      "Found "
      <> (print_ℕ n
          <> (" new OVERLAY nodes in "
              <> (api.overlay_text id <> ("(" <> (print_ℤ workchain <> "), searching more...")))))
  text (found_dht n) = "Found " <> (print_ℕ n <> " new DHT nodes, searching more...")
  text (overlay_header id workchain) =
      "---- Found OVERLAY nodes in "
      <> (api.overlay_text id <> ("(" <> (print_ℤ workchain <> "):")))
  text (overlay_node ip node) = "IP " <> (api.ip_text ip <> (": " <> api.debug_node node))
  text (overlay_total n) = "---- Found " <> (print_ℕ n <> " OVERLAY nodes totally")
  text dht_header = "---- Found DHT nodes:"
  text (dht_node node json) = json <> ","
  text (dht_total n) = "Total: " <> (print_ℕ n <> " DHT nodes")
  text no_dht = "---- No DHT nodes found"
  text (failed e) = "DHT scanning error: " <> e
  text usage = "Usage: dhtscan [--jsonl] [--overlay] [--workchain0] <path-to-global-config>"

pub data Event (api : Api) : Type 0 where
  start : Event api
  add_peer : api.Node → Event api
  find_dht_nodes : api.Peer → Event api
  find_overlay_nodes : api.OverlayId → Event api
  get_known_nodes : Event api
  ping : api.KeyId → Result Bool → Event api
  print : Line api → Event api

-- The answers of the network, which may depend on all that was done.
pub record World (api : Api) : Type 0 where
  pub started : List (Event api) → Result (Unit {0})
  pub added : List (Event api) → api.Node → Result (Option api.Peer)
  pub searched : List (Event api) → api.Peer → Result Bool
  pub overlay_id : ℤ → Result api.OverlayId
  -- nodes of an overlay, and where to go on
  pub overlay_nodes :
      List (Event api)
      → api.OverlayId
      → Option api.Iter
      → Result (List (api.Ip × api.Node)) × Option api.Iter
  pub known : List (Event api) → Result (List api.Node)
  pub pinged : List (Event api) → api.KeyId → Result Bool
  -- the order in which a hash map gives its entries
  pub entries : List (api.KeyId × (api.Ip × api.Node)) → List (api.KeyId × (api.Ip × api.Node))
