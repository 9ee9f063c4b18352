-- ===== src/DhtScan/Listing.antt =====
-- The list of DHT nodes at the end of `scan` in bin/dhtscan.rs.
pub mod Live
use ever_node_tools.Prelude.{
  ℕ, ◌+◌, String, Bool, true, false, ◌||◌, List, [], ◌∷◌, inl, inr, ltb, length, if◌then◌else◌,
  Option, some,
}
use ever_node_tools.Outcome.{Outcome, ok, Result, outcome}
use ever_node_tools.Io.{Io, pure, lift, perform, ◌>>=◌, ◌>>◌}
use ever_node_tools.Json.{Json}
use ever_node_tools.DhtNode.{describe}
use ever_node_tools.DhtScan.Net.{Api, Event, World, dht_header, dht_node, dht_total, no_dht, ping}
use ever_node_tools.DhtScan.Overlay.{say, known}

module _ (api : Api) where
  -- the loop that looks for a node among those of the configuration
  unfoldable pub configured : List api.Node → api.Node → Bool
  configured [] node = false
  configured (preset ∷ presets) node = api.same_node preset node || configured presets node

  abbrev pub print_json : Bool → Json → Result String
  print_json true json = api.to_string json
  print_json false json = api.to_string_pretty json

module _ (api : Api) (world : World api) where
  -- `rt.block_on(dht.ping(key.id()))`, whose error is not passed on
  abbrev pub ask_alive : api.KeyId → Io (Event api) (Result Bool)
  ask_alive id h = let answer = world.pinged h id in (ok answer, ping id answer ∷ h)

  abbrev pub print_node : Bool → api.Node → Json → Io (Event api) (Unit {0})
  print_node jsonl node json = do
    line ← lift (outcome (print_json api jsonl json))
    say api world (dht_node node line)

  abbrev pub announce : Bool → api.Node → api.Key → Io (Event api) (Unit {0})
  announce jsonl node key = do json ← lift (describe api.nodes node key); print_node jsonl node json

  unfoldable pub if_alive : Bool → ℕ → api.Node → api.Key → Result Bool → Io (Event api) ℕ
  if_alive jsonl count node key (inr true) = do announce jsonl node key; pure (count + 1)
  if_alive jsonl count node key (inr false) = pure count
  if_alive jsonl count node key (inl e) = pure count

  abbrev pub ask_node : Bool → ℕ → api.Node → api.Key → Io (Event api) ℕ
  ask_node jsonl count node key = do
    alive ← ask_alive (api.key_id key)
    if_alive jsonl count node key alive

  abbrev pub new_node : Bool → ℕ → api.Node → Io (Event api) ℕ
  new_node jsonl count node = do
    key ← lift (outcome (api.key_of node))
    ask_node jsonl count node key

  -- the loop over the known nodes, with the number of those printed before
  unfoldable pub list_dht_nodes : Bool → List api.Node → ℕ → List api.Node → Io (Event api) ℕ
  list_dht_nodes jsonl dht_nodes count [] = pure count
  list_dht_nodes jsonl dht_nodes count (node ∷ nodes) = do
    count' ← if configured api dht_nodes node then pure count else new_node jsonl count node
    list_dht_nodes jsonl dht_nodes count' nodes

  abbrev pub show_total : ℕ → Io (Event api) (Unit {0})
  show_total count = say api world (dht_total count)

  abbrev pub list_all : Bool → List api.Node → List api.Node → Io (Event api) (Unit {0})
  list_all jsonl dht_nodes nodes = do
    count ← list_dht_nodes jsonl dht_nodes 0 nodes
    show_total count

  abbrev pub list_known : Bool → List api.Node → List api.Node → Io (Event api) (Unit {0})
  list_known jsonl dht_nodes nodes =
      if ltb (length dht_nodes) (length nodes)
      then (do say api world dht_header; list_all jsonl dht_nodes nodes)
      else say api world no_dht

  unfoldable pub list_dht : Bool → List api.Node → Io (Event api) (Unit {0})
  list_dht jsonl dht_nodes = do nodes ← known api world; list_known jsonl dht_nodes nodes
