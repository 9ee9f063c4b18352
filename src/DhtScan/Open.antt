-- ===== src/DhtScan/Open.antt =====
-- How `scan` of bin/dhtscan.rs reads the configuration and starts its nodes.
use ever_node_tools.Prelude.{ℕ, String, ◌<>◌, List, [], ◌∷◌}
use ever_node_tools.Outcome.{Outcome, ok, map_err, Result, outcome}
use ever_node_tools.Outcome
use ever_node_tools.Io.{Io, pure, lift, perform, ◌>>=◌, ◌>>◌}
use ever_node_tools.Rust.Word.{Bytes}
use ever_node_tools.DhtScan.Net.{Api, World, Event, start}

-- What is called of the files, the configuration and the nodes. That the calls of an opened node
-- give what `World` says, and leave the events there, is not repeated in them.
pub record Setup (api : Api) : Type 1 where
  pub File : Type 0
  pub open_file : String → Result File
  pub Global : Type 0
  pub from_reader : File → Result Global
  pub zero_state_file_hash : Global → Result Bytes
  pub get_dht_nodes_configs : Global → Result (List api.Node)
  pub new_runtime : Result (Unit {0})
  pub NodeConfig : Type 0
  pub with_ip_address_and_private_key_tags : String → List ℕ → Result NodeConfig
  pub Adnl : Type 0
  pub with_config : NodeConfig → Result Adnl
  pub Dht : Type 0
  pub with_adnl_node : Adnl → ℕ → Result Dht
  pub Overlay : Type 0
  pub with_adnl_node_and_zero_state : Adnl → Bytes → ℕ → Result Overlay

-- `IP` and `KEY_TAG`
abbrev node_address : String
node_address = "0.0.0.0:4191"

abbrev node_key_tag : ℕ
node_key_tag = 1

module _ (api : Api) (world : World api) (setup : Setup api) where
  unfoldable pub read_global : String → Outcome setup.Global
  read_global cfgfile = Outcome.◌>>=◌ (outcome (setup.open_file cfgfile)) λ file.
      map_err (λ e. "Cannot read config from file " <> (cfgfile <> (": " <> e)))
        (outcome (setup.from_reader file))

  -- the nodes that are started
  unfoldable pub make_nodes : Bytes → Outcome (setup.Dht × setup.Overlay)
  make_nodes zero_state = Outcome.◌>>=◌ (outcome setup.new_runtime) λ rt.
      Outcome.◌>>=◌
        (outcome (setup.with_ip_address_and_private_key_tags node_address (node_key_tag ∷ [])))
        λ config. Outcome.◌>>=◌ (outcome (setup.with_config config)) λ adnl.
          Outcome.◌>>=◌ (outcome (setup.with_adnl_node adnl node_key_tag)) λ dht.
            Outcome.◌>>=◌
              (outcome (setup.with_adnl_node_and_zero_state adnl zero_state node_key_tag))
              λ overlay. ok (dht, overlay)

  -- the configured DHT nodes, once all is started
  unfoldable pub start_all : String → Io (Event api) (List api.Node)
  unfolding read_global make_nodes
  start_all cfgfile = do
    config ← lift (read_global cfgfile)
    zero_state ← lift (outcome (setup.zero_state_file_hash config))
    dht_nodes ← lift (outcome (setup.get_dht_nodes_configs config))
    nodes ← lift (make_nodes zero_state)
    perform start (λ h. outcome (world.started h))
    pure dht_nodes
