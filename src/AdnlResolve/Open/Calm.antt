-- ===== src/AdnlResolve/Open/Calm.antt =====
-- The start of the DHT node in bin/adnl_resolve.rs does not panic.
use ever_node_tools.Prelude.{String}
use ever_node_tools.Outcome.{outcome, outcome-IsCalm, map_err-IsCalm, IsCalm, IsCalm->>=}
use ever_node_tools.AdnlResolve.Dht.{Api, World}
use ever_node_tools.AdnlResolve.Open.{Setup, read_global, make_dht}

module _ (api : Api) (world : World api) (setup : Setup api) where
  pub read_global-IsCalm : (cfgfile : String) → IsCalm (read_global api world setup cfgfile)
  unfolding read_global
  read_global-IsCalm cfgfile =
      IsCalm->>= (outcome (setup.open_file cfgfile)) _ (outcome-IsCalm (setup.open_file cfgfile))
        λ file. map_err-IsCalm _ _ (outcome-IsCalm (setup.from_reader file))

  pub make_dht-IsCalm : IsCalm (make_dht api world setup)
  unfolding make_dht
  make_dht-IsCalm =
      IsCalm->>= (outcome (setup.with_ip_address_and_private_key_tags _ _)) _ (outcome-IsCalm _)
        λ config.
          IsCalm->>= (outcome (setup.with_config config)) _ (outcome-IsCalm _)
            λ adnl. outcome-IsCalm (setup.with_adnl_node adnl _)
