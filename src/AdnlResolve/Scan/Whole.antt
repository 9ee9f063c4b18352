-- ===== src/AdnlResolve/Scan/Whole.antt =====
-- The whole run of bin/adnl_resolve.rs: what `scan` promises from the command line on.
use mathlib.Core.List.{map}
use ever_node_tools.Prelude.{
  ℕ, String, ◌≡◌, refl, sym, ◌≤◌, ltb, length, false, Option, none, some, List, [], ◌∷◌, ◌++◌, inl,
  inr, Bool-cases, arith,
}
use ever_node_tools.Outcome.{ok, outcome-IsCalm, outcome-eq-ok}
use ever_node_tools.AdnlResolve.Open.{Setup, read_global, make_dht, start_dht}
use ever_node_tools.Io.{pure, lift, perform, ◌>>=◌, Ensures, Ensures->>=, Ensures-lift}
use ever_node_tools.Rust.Word.{Bytes}
use ever_node_tools.AdnlResolve.Dht.{Api, World, Event, start, Result, outcome}
use ever_node_tools.AdnlResolve.Open.Calm.{read_global-IsCalm, make_dht-IsCalm}
use ever_node_tools.AdnlResolve.KeyId.{key_id}
use ever_node_tools.AdnlResolve.Search.{peer, contains, keep}
use ever_node_tools.AdnlResolve.Search.Keys.{Unique}
use ever_node_tools.AdnlResolve.Search.Sound.{
  failed, NeverRepeats, IsHonest, IsQuietly, Good, Disjoint, Collecting, peer-Good,
}
use ever_node_tools.AdnlResolve.Search.Safety.{search-NeverRepeats, all-Disjoint}
use ever_node_tools.AdnlResolve.Scan.{valid_peer, join, search_from, search_in, scan_nodes, scan}

pub lt_false : (bytes : Bytes) → 32 ≤ length bytes → ltb (length bytes) 32 ≡ false
lt_false bytes h = elim (Bool-cases (ltb (length bytes) 32)) [
  | inl less ↦ ground arith
  | inr same ↦ same
]

module _ (api : Api) (world : World api) (honest : IsHonest api world) where
  open honest use {laws, key_of}

  -- A configured node that is a valid peer joins the nodes.
  valid_peer-Good :
      (nodes : List api.Key) (node : api.Node) (rest : List api.Node) (h : List (Event api))
      (answer : Option api.Key) (g : List (Event api))
      → Collecting api world honest [] h rest (keep api world [] answer nodes) g
      → Ensures
          (λ key. Collecting api world honest [] h rest (nodes ++ key ∷ []))
          (NeverRepeats api)
          (valid_peer api world node answer g).0
          (valid_peer api world node answer g).1
  unfolding contains
  valid_peer-Good nodes node rest h none g (good, apart) = good.2.1
  valid_peer-Good nodes node rest h (some key) g (good, apart) = (good, apart)

  pub join-Good :
      (nodes : List api.Key) (known : List api.Node) (h g : List (Event api))
      → Good api world honest [] h nodes g
      → Unique api laws (map key_of known)
      → Disjoint api world honest nodes known
      → Ensures
          (Good api world honest [] h)
          (NeverRepeats api)
          (join api world nodes known g).0
          (join api world nodes known g).1
  unfolding join
  join-Good nodes [] h g good unique apart = good
  join-Good nodes (node ∷ rest) h g good (new, unique) apart =
      Ensures->>= (λ answer. Collecting api world honest [] h rest (keep api world [] answer nodes))
        (Good api world honest [] h) (NeverRepeats api) (peer api world node)
        (λ answer.
          (valid_peer api world node answer >>= λ key. join api world (nodes ++ key ∷ []) rest))
        g
        (peer-Good api world honest [] nodes node rest h g (world.added g node)
          (honest.added_own g node) (good, apart) new)
        (λ answer g1 collecting.
          Ensures->>= (λ key. Collecting api world honest [] h rest (nodes ++ key ∷ []))
            (Good api world honest [] h) (NeverRepeats api) (valid_peer api world node answer)
            (λ key. join api world (nodes ++ key ∷ []) rest) g1
            (valid_peer-Good nodes node rest h answer g1 collecting)
            (λ key g2 (good', apart'). join-Good (nodes ++ key ∷ []) rest h g2 good' unique apart'))

  -- An id that is long enough, or no base64 at all.
  abbrev IsLong : String → Type 0
  IsLong adnlid = (bytes : Bytes) → world.base64_decode adnlid ≡ inr bytes → 32 ≤ length bytes

  key_id-safe :
      (adnlid : String) (g : List (Event api))
      → IsLong adnlid
      → NeverRepeats api g
      → (decoded : Result Bytes) → world.base64_decode adnlid ≡ decoded
      → Ensures (λ id g'. g' ≡ g) (NeverRepeats api) (key_id api world adnlid) g
  unfolding key_id
  key_id-safe adnlid g long never (inl e) found = rw found never
  key_id-safe adnlid g long never (inr bytes) found =
      rw (found, lt_false bytes (long bytes found)) refl

  search_in-safe :
      (rounds : ℕ) (adnlid : String) (nodes : List api.Key) (g : List (Event api))
      → IsLong adnlid
      → Good api world honest [] [] nodes g
      → Ensures
          (λ address. NeverRepeats api)
          (NeverRepeats api)
          (search_in api world rounds adnlid nodes g).0
          (search_in api world rounds adnlid nodes g).1
  unfolding failed contains
  search_in-safe rounds adnlid nodes g long (u, a, (same, never)) =
      Ensures->>= (λ id g'. g' ≡ g) (λ address. NeverRepeats api) (NeverRepeats api)
        (lift (key_id api world adnlid)) (λ id. search_from api world rounds id nodes) g
        (key_id-safe adnlid g long never (world.base64_decode adnlid) refl)
        (λ id g' e. rw e (
          search-NeverRepeats api world honest rounds id _ _
            (record { agree = λ k. sym (same k); unique = u; apart = a; never = never })))

  started-Quiet :
      (answer : Result (Unit {0}))
      → Ensures
          (λ done. IsQuietly api world honest [])
          (NeverRepeats api)
          (outcome answer)
          (start ∷ [])
  unfolding failed
  started-Quiet (inl e) = tt
  started-Quiet (inr done) = (λ k. refl, tt)

  module _ (setup : Setup api) where
    -- What holds of the nodes that are listed in the configuration that is read.
    abbrev pub Configured : (List api.Node → Type 0) → String → Type 0
    Configured P cfgfile =
        (config : setup.Global) (nodes : List api.Node)
        → read_global api world setup cfgfile ≡ ok config
        → setup.get_dht_nodes_configs config ≡ inr nodes
        → P nodes

    abbrev pub Begun : (List api.Node → Type 0) → List api.Node → List (Event api) → Type 0
    Begun P nodes g = P nodes × IsQuietly api world honest [] g

    pub start_dht-Good :
        (P : List api.Node → Type 0) (cfgfile : String)
        → Configured P cfgfile
        → Ensures
            (Begun P)
            (NeverRepeats api)
            (start_dht api world setup cfgfile []).0
            (start_dht api world setup cfgfile []).1
    unfolding start_dht
    start_dht-Good P cfgfile holds =
        Ensures-lift (Begun P) (NeverRepeats api) (read_global api world setup cfgfile) _ []
          (read_global-IsCalm api world setup cfgfile) tt
          λ config read.
            Ensures-lift (Begun P) (NeverRepeats api) (outcome (setup.get_dht_nodes_configs config))
              _ [] (outcome-IsCalm _) tt
              λ nodes listed.
                Ensures-lift (Begun P) (NeverRepeats api) (make_dht api world setup) _ []
                  (make_dht-IsCalm api world setup) tt
                  λ dht made.
                    Ensures->>= (λ done. IsQuietly api world honest []) (Begun P) (NeverRepeats api)
                      (perform start (λ h. outcome (world.started h))) (λ done. pure nodes) []
                      (started-Quiet (world.started []))
                      (λ done g quiet. (holds config nodes read (outcome-eq-ok _ listed), quiet))

  -- no node twice
  abbrev pub Distinct : List api.Node → Type 0
  Distinct nodes = Unique api laws (map key_of nodes)

  -- Where a peer gets the key of its own node and the DHT lists no node twice: if the configuration
  -- lists no node twice and the id is at least 32 bytes in base64, or no base64, then a run of `scan`
  -- over any number of rounds, whatever the nodes answer, does not panic, and its history asks no
  -- node again that failed to respond.
  pub scan-NeverRepeats :
      (setup : Setup api) (rounds : ℕ) (adnlid cfgfile : String)
      → ((bytes : Bytes) → world.base64_decode adnlid ≡ inr bytes → 32 ≤ length bytes)
      → ((config : setup.Global) (nodes : List api.Node)
          → read_global api world setup cfgfile ≡ ok config
          → setup.get_dht_nodes_configs config ≡ inr nodes
          → Unique api laws (map key_of nodes))
      → Ensures
          (λ address. NeverRepeats api)
          (NeverRepeats api)
          (scan api world setup rounds adnlid cfgfile []).0
          (scan api world setup rounds adnlid cfgfile []).1
  unfolding scan
  scan-NeverRepeats setup rounds adnlid cfgfile long once =
      Ensures->>= (Begun setup Distinct) (λ address. NeverRepeats api) (NeverRepeats api)
        (start_dht api world setup cfgfile) (scan_nodes api world rounds adnlid) []
        (start_dht-Good setup Distinct cfgfile once)
        (λ known g (unique, quiet).
          Ensures->>= (Good api world honest [] []) (λ address. NeverRepeats api) (NeverRepeats api)
            (join api world [] known) (search_in api world rounds adnlid) g
            (join-Good [] known [] g (tt, tt, quiet) unique (all-Disjoint api world honest known))
            (λ nodes g' good. search_in-safe rounds adnlid nodes g' long good))
