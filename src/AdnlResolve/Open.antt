-- ===== src/AdnlResolve/Open.antt =====
-- How `scan` of bin/adnl_resolve.rs reads the configuration and starts the DHT node.
pub mod Calm
use ever_node_tools.Prelude.{ℕ, String, ◌<>◌, List, [], ◌∷◌}
use ever_node_tools.Outcome.{Outcome, map_err}
use ever_node_tools.Outcome
use ever_node_tools.Io.{Io, pure, lift, perform, ◌>>=◌, ◌>>◌}
use ever_node_tools.AdnlResolve.Dht.{Result, outcome, Api, Event, World, start}

-- What is called of the file, the configuration and the node. That the calls of an opened node
-- give what `World` says, and leave the events there, is not repeated in them.
pub record Setup (api : Api) : Type 1 where
  pub File : Type 0
  pub open_file : String → Result File
  pub Global : Type 0
  pub from_reader : File → Result Global
  pub get_dht_nodes_configs : Global → Result (List api.Node)
  pub NodeConfig : Type 0
  pub with_ip_address_and_private_key_tags : String → List ℕ → Result NodeConfig
  pub Adnl : Type 0
  pub with_config : NodeConfig → Result Adnl
  pub Dht : Type 0
  pub with_adnl_node : Adnl → ℕ → Result Dht

-- `IP` and `KEY_TAG`
abbrev local_address : String
local_address = "0.0.0.0:4191"

abbrev local_key_tag : ℕ
local_key_tag = 1

module _ (api : Api) (world : World api) (setup : Setup api) where
  unfoldable pub read_global : String → Outcome setup.Global
  read_global cfgfile = Outcome.◌>>=◌ (outcome (setup.open_file cfgfile)) λ file.
      map_err (λ e. "Cannot read config from file " <> (cfgfile <> (": " <> e)))
        (outcome (setup.from_reader file))

  unfoldable pub make_dht : Outcome setup.Dht
  make_dht =
      Outcome.◌>>=◌
        (outcome (setup.with_ip_address_and_private_key_tags local_address (local_key_tag ∷ [])))
        λ config.
          Outcome.◌>>=◌ (outcome (setup.with_config config))
            λ adnl. outcome (setup.with_adnl_node adnl local_key_tag)

  -- the configured DHT nodes, once the node is started
  unfoldable pub start_dht : String → Io (Event api) (List api.Node)
  start_dht cfgfile = do
    config ← lift (read_global cfgfile)
    dht_nodes ← lift (outcome (setup.get_dht_nodes_configs config))
    dht ← lift make_dht
    perform start (λ h. outcome (world.started h))
    pure dht_nodes
