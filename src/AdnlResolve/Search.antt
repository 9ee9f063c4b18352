-- ===== src/AdnlResolve/Search.antt =====
-- The loop of `scan` in bin/adnl_resolve.rs. Its state is the three variables `nodes`, `bad_nodes`
-- and `index`; a round gives the address or the next state.
pub mod Keys
pub mod Sound
pub mod Safety
pub mod Finite
pub mod Silent
pub mod Ends
pub mod Pass
pub mod Finds
use ever_node_tools.Prelude.{
  ℕ, zero, suc, ◌+◌, String, ◌<>◌, Bool, true, false, ◌||◌, Option, none, some, List, [], ◌∷◌, ◌++◌,
  leb, length, get_elem?, remove_at, inl, inr, if◌then◌else◌,
}
use ever_node_tools.Outcome.{Outcome, ok, err, panic}
use ever_node_tools.Io.{Io, pure, fail, perform, lift, ◌>>=◌, ◌>>◌}
use ever_node_tools.Rust.Word.{Bytes}
use ever_node_tools.Rust.Print.{print_ℕ}
use ever_node_tools.AdnlResolve.Dht.{
  Result, outcome, Api, Event, World, find_address, get_known_nodes, add_peer, find_dht_nodes,
  print,
}

pub record Scan (Key : Type 0) : Type 0 where
  pub nodes : List Key
  pub bad_nodes : List Key
  pub index : ℕ

pub data Round (api : Api) : Type 0 where
  found : api.Found → Round api
  next : Scan api.Key → Round api

module _ (api : Api) where
  -- `bad_nodes.contains(&key)`
  unfoldable pub contains : List api.Key → api.Key → Bool
  contains [] k = false
  contains (j ∷ keys) k = api.same j k || contains keys k

module _ (api : Api) (world : World api) where
  abbrev pub say : String → Io (Event api) (Unit {0})
  say text = perform (print text) (λ h. ok tt)

  -- `dht.add_peer(node)?`
  abbrev pub peer : api.Node → Io (Event api) (Option api.Key)
  peer node = perform (add_peer node) (λ h. outcome (world.added h node))

  abbrev pub keep : List api.Key → Option api.Key → List api.Key → List api.Key
  keep bad none nodes = nodes
  keep bad (some key) nodes = if contains api bad key then nodes else nodes ++ key ∷ []

  -- the loop over the known nodes
  unfoldable pub collect :
      List api.Key → List api.Key → List api.Node → Io (Event api) (List api.Key)
  collect bad nodes [] = pure nodes
  collect bad nodes (node ∷ known) = do key ← peer node; collect bad (keep bad key nodes) known

  abbrev some_peers : List api.Key → Io (Event api) (List api.Key)
  some_peers [] = fail "No good DHT peers"
  some_peers (key ∷ nodes) = pure (key ∷ nodes)

  abbrev pub with_nodes : Scan api.Key → List api.Key → Io (Event api) (Scan api.Key)
  with_nodes s all = do
    nodes ← some_peers all
    pure (record { nodes = nodes; bad_nodes = s.bad_nodes; index = 0 })

  abbrev pub with_known : Scan api.Key → List api.Node → Io (Event api) (Scan api.Key)
  with_known s known = do all ← collect s.bad_nodes [] known; with_nodes s all

  -- a new pass over all nodes that are known and not bad
  unfoldable pub refill : Scan api.Key → Io (Event api) (Scan api.Key)
  refill s = do known ← perform get_known_nodes (λ h. outcome (world.known h)); with_known s known

  -- `dht.find_dht_nodes(key).await?`
  abbrev ask : api.Key → Io (Event api) Bool
  ask key h = let answer = world.responds h key in (outcome answer, find_dht_nodes key answer ∷ h)

  -- what is done with the answer of the node at the index
  unfoldable pub settle : Scan api.Key → api.Key → Bool → Io (Event api) (Scan api.Key)
  settle s key true = pure (record s { index = s.index + 1 })
  settle s key false = do
    say ("DHT node " <> (api.key_text key <> " is non-responsive"))
    pure (record s { nodes = remove_at s.nodes s.index; bad_nodes = s.bad_nodes ++ key ∷ [] })

  abbrev pub scanning_text : Scan api.Key → api.Key → String
  scanning_text s key =
      "Not found yet, scanning more DHT nodes from "
      <> (api.key_text key
          <> (" (" <> (print_ℕ s.index <> (" of " <> (print_ℕ (length s.nodes) <> ") ...")))))

  abbrev pub ask_and_settle : Scan api.Key → api.Key → Io (Event api) (Scan api.Key)
  ask_and_settle s key = do responsive ← ask key; settle s key responsive

  unfoldable pub advance_at : Scan api.Key → Option api.Key → Io (Event api) (Scan api.Key)
  advance_at s none = lift (panic "index out of bounds")
  advance_at s (some key) = do say (scanning_text s key); ask_and_settle s key

  abbrev pub advance : Scan api.Key → Io (Event api) (Round api)
  advance s = do after ← advance_at s (get_elem? s.nodes s.index); pure (next after)

  unfoldable pub round_from : Scan api.Key → Option api.Found → Io (Event api) (Round api)
  round_from s (some address) = do say ("Found " <> api.found_text address); pure (found address)
  round_from s none = do
    ready ← if leb (length s.nodes) s.index then refill s else pure s
    advance ready

  unfoldable pub round : Bytes → Scan api.Key → Io (Event api) (Round api)
  round id s = do
    address ← perform (find_address id) (λ h. ok (world.address h id))
    round_from s address

  -- The loop itself has no bound: `none` is a search that goes on after that many rounds.
  unfoldable pub search : ℕ → Bytes → Scan api.Key → Io (Event api) (Option api.Found)
  search zero id s = pure none
  search (suc rounds) id s = do
    result ← round id s
    elim result [ found address ↦ pure (some address) | next s' ↦ search rounds id s' ]
