-- ===== src/AdnlResolve/Scan.antt =====
-- `scan` and `main` of bin/adnl_resolve.rs around the search.
pub mod Whole
pub mod Ends
pub mod Finds
use ever_node_tools.Prelude.{
  ℕ, zero, suc, String, ◌<>◌, Bool, true, false, Option, none, some, List, [], ◌∷◌, ◌++◌, leb, take,
  ltb, length, if◌then◌else◌,
}
use ever_node_tools.Outcome.{Outcome, ok, err, panic}
use ever_node_tools.Io.{◌>>=◌, ◌>>◌, Io, pure, fail, lift, perform}
use ever_node_tools.Rust.Word.{Bytes}
use ever_node_tools.AdnlResolve.Dht.{Api, Event, World, print}
use ever_node_tools.AdnlResolve.Open.{Setup, start_dht}
use ever_node_tools.AdnlResolve.Search.{Scan, peer, search, say}
use ever_node_tools.AdnlResolve.KeyId.{key_id}

module _ (api : Api) (world : World api) where
  abbrev pub valid_peer : api.Node → Option api.Key → Io (Event api) api.Key
  valid_peer node none = fail ("Invalid DHT peer " <> api.debug_node node)
  valid_peer node (some key) = pure key

  -- the nodes of the configuration; all of them must be valid peers
  unfoldable pub join : List api.Key → List api.Node → Io (Event api) (List api.Key)
  join nodes [] = pure nodes
  join nodes (node ∷ rest) = do
    answer ← peer api world node
    key ← valid_peer node answer
    join (nodes ++ key ∷ []) rest

  abbrev pub search_from : ℕ → Bytes → List api.Key → Io (Event api) (Option api.Found)
  search_from rounds id nodes = do
    say api world ("Searching DHT for " <> (api.id_text id <> "..."))
    search api world rounds id (record { nodes = nodes; bad_nodes = []; index = 0 })

  abbrev pub search_in : ℕ → String → List api.Key → Io (Event api) (Option api.Found)
  search_in rounds adnlid nodes = do
    id ← lift (key_id api world adnlid)
    search_from rounds id nodes

  abbrev pub scan_nodes : ℕ → String → List api.Node → Io (Event api) (Option api.Found)
  scan_nodes rounds adnlid dht_nodes = do nodes ← join [] dht_nodes; search_in rounds adnlid nodes

  unfoldable pub scan : Setup api → ℕ → String → String → Io (Event api) (Option api.Found)
  scan setup rounds adnlid cfgfile = do
    dht_nodes ← start_dht api world setup cfgfile
    scan_nodes rounds adnlid dht_nodes

  -- what `main` does with the outcome of `scan`
  abbrev report : Outcome (Option api.Found) → Io (Event api) (Unit {0})
  report (ok address) = pure tt
  report (err e) = say api world ("ADNL resolving error: " <> e)
  report (panic e) = lift (panic e)

  unfoldable pub main : Setup api → ℕ → List String → Io (Event api) (Unit {0})
  main setup rounds (program ∷ adnlid ∷ cfgfile ∷ []) h =
      let (outcome, h') = scan setup rounds adnlid cfgfile h in report outcome h'
  main setup rounds args h = say api world "Usage: adnl_resolve <adnl-id> <path-to-global-config>" h
