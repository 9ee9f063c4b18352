-- ===== src/AdnlResolve/Scan/Ends.antt =====
-- Where the nodes of the DHT are finitely many and none responds, bin/adnl_resolve.rs ends.
use mathlib.Core.List.{map}
use ever_node_tools.Rust.Word.{Bytes}
use ever_node_tools.Prelude.{
  ◌≤◌, ℕ, ◌<◌, ◌≡◌, ◌≢◌, refl, ap, ◌∙◌, true, Option, none, some, List, [], ◌∷◌, ◌++◌, ◌<>◌, String,
  All, inr, length,
}
use ever_node_tools.Outcome.{Outcome, ok, err, panic, outcome-eq-ok}
use ever_node_tools.Io.{lift, ◌>>=◌, after, after_all, Ensures, Ensures-ok, returned}
use ever_node_tools.AdnlResolve.Dht.{Api, World, Event, print}
use ever_node_tools.AdnlResolve.Open.{Setup, read_global, start_dht}
use ever_node_tools.AdnlResolve.KeyId.{key_id}
use ever_node_tools.AdnlResolve.Search.{contains, peer}
use ever_node_tools.AdnlResolve.Search.Sound.{failed, NeverRepeats, IsHonest, Good}
use ever_node_tools.AdnlResolve.Search.Safety.{all-Disjoint}
use ever_node_tools.AdnlResolve.Search.Keys.{Unique}
use ever_node_tools.AdnlResolve.Search.Finite.{Within, Within-append}
use ever_node_tools.AdnlResolve.Search.Silent.{IsSilent}
use ever_node_tools.AdnlResolve.Search.Ends.{search_ends}
use ever_node_tools.AdnlResolve.Scan.{valid_peer, join, search_in, scan}
use ever_node_tools.AdnlResolve.Scan.Whole.{Begun, scan-NeverRepeats, start_dht-Good, join-Good}

module _ (api : Api) (world : World api) (honest : IsHonest api world) (universe : List api.Key)
    (silence : IsSilent api world honest universe) where
  open honest use {laws, key_of}

  abbrev Known : List api.Node → Type 0
  Known = All (λ node. contains api universe (key_of node) ≡ true)

  -- no node twice, and all of them known
  abbrev Covered : List api.Node → Type 0
  Covered nodes = Unique api laws (map key_of nodes) × Known nodes

  with_peer :
      (nodes : List api.Key) (node : api.Node) (rest : List api.Node) (h : List (Event api))
      (answer : Option api.Key) {keys : List api.Key} {g : List (Event api)}
      → Within api laws universe nodes
      → ((key : api.Key) → answer ≡ some key → contains api universe key ≡ true)
      → ((key : api.Key)
          → Within api laws universe (nodes ++ key ∷ [])
          → join api world (nodes ++ key ∷ []) rest h ≡ (ok keys, g)
          → Within api laws universe keys)
      → (valid_peer api world node answer >>= λ key. join api world (nodes ++ key ∷ []) rest) h
        ≡ (ok keys, g)
      → Within api laws universe keys
  with_peer nodes node rest h none within own more done = cc (ap (λ p. p.0) done)
  with_peer nodes node rest h (some key) within own more done =
      more key (Within-append api laws universe nodes key within (own key refl)) done

  join-Within :
      (nodes : List api.Key) (known : List api.Node) (h : List (Event api)) {keys : List api.Key}
      {g : List (Event api)}
      → Within api laws universe nodes
      → Known known
      → join api world nodes known h ≡ (ok keys, g)
      → Within api laws universe keys
  unfolding join
  join-Within nodes [] h within known done =
      returned (λ v _. Within api laws universe v) done within
  join-Within nodes (node ∷ rest) h within (first, known) done =
      after (peer api world node) _ h done refl λ answer e later.
        with_peer nodes node rest _ answer within
          (λ key given.
            let mine =
              honest.added_own h node key (outcome-eq-ok (world.added h node) e ∙ ap inr given) in
            rw mine first)
          (λ key inside. join-Within (nodes ++ key ∷ []) rest _ inside known) later

  search_in-ends :
      (rounds : ℕ) (adnlid : String) (nodes : List api.Key) (g g' : List (Event api))
      → Good api world honest [] [] nodes g
      → Within api laws universe nodes
      → length universe < rounds
      → search_in api world rounds adnlid nodes g ≢ (ok none, g')
  unfolding failed
  search_in-ends rounds adnlid nodes g g' (unique, apart, (same, never)) within enough done =
      after (lift (key_id api world adnlid)) _ g done refl λ id e later.
        search_ends api world honest universe silence rounds id nodes
          (print ("Searching DHT for " <> (api.id_text id <> "...")) ∷ g) never (λ k. same k) unique
          within enough (ap (λ p. p.0) later)

  scan-ne-none :
      (setup : Setup api) (rounds : ℕ) (adnlid cfgfile : String)
      → ((config : setup.Global) (nodes : List api.Node)
          → read_global api world setup cfgfile ≡ ok config
          → setup.get_dht_nodes_configs config ≡ inr nodes
          → Unique api laws (map key_of nodes)
            × All (λ node. contains api universe (key_of node) ≡ true) nodes)
      → length universe < rounds
      → (scan api world setup rounds adnlid cfgfile []).0 ≢ ok none
  unfolding scan
  scan-ne-none setup rounds adnlid cfgfile holds enough goes_on =
      let run = scan api world setup rounds adnlid cfgfile [] in
      after_all (start_dht api world setup cfgfile) _ [] {h' = run.1} (λ i. (goes_on i, run.1))
        λ known g begun later.
          let ((unique, inside), quiet) =
            Ensures-ok (Begun api world honest setup Covered) (NeverRepeats api)
              (start_dht api world setup cfgfile [])
              (start_dht-Good api world honest setup Covered cfgfile holds) begun in
          after_all (join api world [] known) _ g later λ nodes g1 joined rest.
            search_in-ends rounds adnlid nodes g1 run.1
              (Ensures-ok (Good api world honest [] []) (NeverRepeats api)
                (join api world [] known g)
                (join-Good api world honest [] known [] g (tt, tt, quiet) unique
                  (all-Disjoint api world honest known))
                joined)
              (join-Within [] known g tt inside joined) enough rest

  -- the outcome of a search that has come to its end, without a panic
  abbrev pub Ended : Outcome (Option api.Found) → Type 0
  Ended (ok (some address)) = Unit
  Ended (ok none) = ⊥
  Ended (err e) = Unit
  Ended (panic e) = ⊥

  Ended-cases :
      (r : Outcome (Option api.Found)) (g : List (Event api))
      → Ensures (λ address. NeverRepeats api) (NeverRepeats api) r g
      → r ≢ ok none
      → Ended r
  Ended-cases (ok (some address)) g safe goes = tt
  Ended-cases (ok none) g safe goes = goes refl
  Ended-cases (err e) g safe goes = tt
  Ended-cases (panic e) g safe goes = safe

  -- Where a peer gets the key of its own node and the DHT lists each node once: if the configuration
  -- that is read lists no node twice, the keys of its nodes and of all nodes that are ever known are
  -- among those of a list, no node ever responds, and the id is at least 32 bytes in base64, or no
  -- base64, then `scan` with more rounds than the list is long has found the address or ends with an
  -- error: it does not go on, and it does not panic.
  pub scan-Ended :
      (setup : Setup api) (rounds : ℕ) (adnlid cfgfile : String)
      → ((bytes : Bytes) → world.base64_decode adnlid ≡ inr bytes → 32 ≤ length bytes)
      → ((config : setup.Global) (nodes : List api.Node)
          → read_global api world setup cfgfile ≡ ok config
          → setup.get_dht_nodes_configs config ≡ inr nodes
          → Unique api laws (map key_of nodes)
            × All (λ node. contains api universe (key_of node) ≡ true) nodes)
      → length universe < rounds
      → Ended (scan api world setup rounds adnlid cfgfile []).0
  scan-Ended setup rounds adnlid cfgfile long holds enough =
      Ended-cases _ (scan api world setup rounds adnlid cfgfile []).1
        (scan-NeverRepeats api world honest setup rounds adnlid cfgfile long
          (λ config nodes read listed. (holds config nodes read listed).0))
        (scan-ne-none setup rounds adnlid cfgfile holds enough)
