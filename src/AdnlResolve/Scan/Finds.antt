-- ===== src/AdnlResolve/Scan/Finds.antt =====
-- That bin/adnl_resolve.rs finds an address which the DHT gives in the end.
use ever_node_tools.Prelude.{
  ℕ, suc, ◌≤◌, String, ◌≡◌, ◌≢◌, refl, Option, none, some, List, [], ◌∷◌, ◌++◌, length, inr, inl,
  false, ltb, arith,
}
use ever_node_tools.Outcome.{ok, Result, outcome, outcome-IsCalm, IsCalm}
use ever_node_tools.Io.{pure, ◌>>=◌, Ensures, Ensures->>=, Ensures-lift}
use ever_node_tools.Rust.Word.{Bytes}
use ever_node_tools.AdnlResolve.Dht.{Api, World, Event, start, add_peer}
use ever_node_tools.AdnlResolve.Open.{Setup, read_global, make_dht, start_dht}
use ever_node_tools.AdnlResolve.KeyId.{key_id}
use ever_node_tools.AdnlResolve.Search.Pass.{asked}
use ever_node_tools.AdnlResolve.Search.Finds.{Any, search_finds}
use ever_node_tools.AdnlResolve.Scan.{valid_peer, join, search_from, search_in, scan_nodes, scan}
use ever_node_tools.AdnlResolve.Open.Calm.{read_global-IsCalm, make_dht-IsCalm}
use ever_node_tools.AdnlResolve.Scan.Whole.{lt_false}

module _ (api : Api) (world : World api) where
  -- No panic.
  abbrev Calm : {A : Type 0} → A → List (Event api) → Type 0
  Calm a g = Unit

  valid_peer-Calm :
      (node : api.Node) (answer : Option api.Key) (h : List (Event api))
      → Ensures Calm
          (Any api world)
          (valid_peer api world node answer h).0
          (valid_peer api world node answer h).1
  valid_peer-Calm node none h = tt
  valid_peer-Calm node (some key) h = tt

  join-Calm :
      (nodes : List api.Key) (known : List api.Node) (h : List (Event api))
      → Ensures Calm
          (Any api world)
          (join api world nodes known h).0
          (join api world nodes known h).1
  unfolding join
  join-Calm nodes [] h = tt
  join-Calm nodes (node ∷ rest) h =
      Ensures-lift Calm (Any api world) (outcome (world.added h node))
        (λ answer.
          valid_peer api world node answer >>= λ key. join api world (nodes ++ key ∷ []) rest)
        (add_peer node ∷ h) (outcome-IsCalm (world.added h node)) tt
        λ answer added.
          Ensures->>= Calm Calm (Any api world) (valid_peer api world node answer)
            (λ key. join api world (nodes ++ key ∷ []) rest) (add_peer node ∷ h)
            (valid_peer-Calm node answer (add_peer node ∷ h))
            (λ key g calm. join-Calm (nodes ++ key ∷ []) rest g)

  key_id-IsCalm :
      (adnlid : String) (decoded : Result Bytes)
      → world.base64_decode adnlid ≡ decoded
      → ((bytes : Bytes) → world.base64_decode adnlid ≡ inr bytes → 32 ≤ length bytes)
      → IsCalm (key_id api world adnlid)
  unfolding key_id
  key_id-IsCalm adnlid (inl e) found long = rw found tt
  key_id-IsCalm adnlid (inr bytes) found long =
      let wide : ltb (length bytes) 32 ≡ false = lt_false bytes (long bytes found) in
      rw (found, wide) tt

  start_dht-Calm :
      (setup : Setup api) (cfgfile : String) (h : List (Event api))
      → Ensures Calm
          (Any api world)
          (start_dht api world setup cfgfile h).0
          (start_dht api world setup cfgfile h).1
  unfolding start_dht
  start_dht-Calm setup cfgfile h =
      Ensures-lift Calm (Any api world) (read_global api world setup cfgfile) _ h
        (read_global-IsCalm api world setup cfgfile) tt
        λ config read.
          Ensures-lift Calm (Any api world) (outcome (setup.get_dht_nodes_configs config)) _ h
            (outcome-IsCalm (setup.get_dht_nodes_configs config)) tt
            λ nodes listed.
              Ensures-lift Calm (Any api world) (make_dht api world setup) _ h
                (make_dht-IsCalm api world setup) tt
                λ dht made.
                  Ensures-lift Calm (Any api world) (outcome (world.started h)) (λ done. pure nodes)
                    (start ∷ h) (outcome-IsCalm (world.started h)) tt (λ done started. tt)

  -- If the DHT gives the address of the id whenever at least `n` nodes have been asked, and the id is at least 32
  -- bytes in base64, or no base64, then `scan` with more than `n` rounds returns an address, or an
  -- error of a call: it does not go on, and it does not panic.
  pub scan_finds :
      (setup : Setup api) (rounds n : ℕ) (adnlid cfgfile : String) (h : List (Event api))
      → ((g : List (Event api)) (id : Bytes)
          → key_id api world adnlid ≡ ok id
          → n ≤ length (asked api g)
          → world.address g id ≢ none)
      → ((bytes : Bytes) → world.base64_decode adnlid ≡ inr bytes → 32 ≤ length bytes)
      → n ≤ rounds
      → Ensures
          (λ address g. address ≢ none)
          (λ g. Unit)
          (scan api world setup (suc rounds) adnlid cfgfile h).0
          (scan api world setup (suc rounds) adnlid cfgfile h).1
  unfolding scan
  scan_finds setup rounds n adnlid cfgfile h given long enough =
      Ensures->>= Calm (λ address g. address ≢ none) (Any api world)
        (start_dht api world setup cfgfile) (scan_nodes api world (suc rounds) adnlid) h
        (start_dht-Calm setup cfgfile h)
        λ known g1 begun.
          Ensures->>= Calm (λ address g. address ≢ none) (Any api world) (join api world [] known)
            (search_in api world (suc rounds) adnlid) g1 (join-Calm [] known g1)
            λ nodes g2 joined.
              Ensures-lift (λ address g. address ≢ none) (Any api world) (key_id api world adnlid)
                (λ id. search_from api world (suc rounds) id nodes) g2
                (key_id-IsCalm adnlid (world.base64_decode adnlid) refl long) tt
                λ id decoded.
                  search_finds api world id rounds n _ _ (λ g. given g id decoded)
                    (omega (arith, enough))
