-- ===== src/DhtScan/Listing/Live.antt =====
-- Which nodes bin/dhtscan.rs lists, and how many it says that they are.
use ever_node_tools.Prelude.{
  ℕ, ◌+◌, ◌≡◌, refl, Bool, true, false, Bool-cases, List, [], ◌∷◌, inl, inr, ltb, length, arith,
  if◌then◌else◌,
}
use ever_node_tools.Outcome.{Result, outcome}
use ever_node_tools.Io.{pure, lift, Ensures, Ensures->>=, Ensures-outcome, Ensures-calm}
use ever_node_tools.DhtNode.{describe, describe-IsCalm}
use ever_node_tools.DhtScan.Net.{
  Api, Line, Event, World, get_known_nodes, ping, print, dht_header, dht_node, dht_total, no_dht,
}
use ever_node_tools.DhtScan.Overlay.{say, known}
use ever_node_tools.DhtScan.Overlay.Counts.{total}
use ever_node_tools.DhtScan.Listing.{
  configured, print_json, print_node, announce, if_alive, ask_node, new_node, list_dht_nodes,
  show_total, list_known, list_dht,
}

module _ (api : Api) where
  abbrev pub shown_in : Line api → ℕ
  shown_in (dht_node node json) = 1
  shown_in _ = 0

  -- The last thing done is the ping of the node, which is not configured, and it was answered.
  abbrev pub IsAlive : List api.Node → api.Node → List (Event api) → Type 0
  IsAlive dht_nodes node (ping id (inr true) ∷ h) =
      (configured api dht_nodes node ≡ false)
      × ((key : api.Key) × (api.key_of node ≡ inr key) × (id ≡ api.key_id key))
  IsAlive dht_nodes node _ = ⊥

  -- Every node that is listed was alive just before.
  abbrev pub ListsAlive : List api.Node → List (Event api) → Type 0
  ListsAlive dht_nodes [] = Unit
  ListsAlive dht_nodes (print (dht_node node json) ∷ h) =
      IsAlive dht_nodes node h × ListsAlive dht_nodes h
  ListsAlive dht_nodes (_ ∷ h) = ListsAlive dht_nodes h

module _ (api : Api) (world : World api) (jsonl : Bool) (dht_nodes : List api.Node) where
  abbrev Alive : List (Event api) → Type 0
  Alive = ListsAlive api dht_nodes

  -- The nodes listed since `h` raise the count from `c` to `n`.
  abbrev Shows : List (Event api) → ℕ → ℕ → List (Event api) → Type 0
  Shows h c n g = Alive g × (total api (shown_in api) g + c ≡ total api (shown_in api) h + n)

  announce-Shows :
      (node : api.Node) (key : api.Key) (h0 h : List (Event api)) (c0 c : ℕ)
      → IsAlive api dht_nodes node h
      → Shows h0 c0 c h
      → Ensures
          (λ done. Shows h0 c0 (c + 1))
          Alive
          (announce api world jsonl node key h).0
          (announce api world jsonl node key h).1
  unfolding total
  announce-Shows node key h0 h c0 c alive (lists, adds) =
      Ensures->>= (λ json g. g ≡ h) (λ done. Shows h0 c0 (c + 1)) Alive
        (lift (describe api.nodes node key)) (print_node api world jsonl node) h
        (Ensures-calm (λ json g. g ≡ h) Alive (describe api.nodes node key) h
          (describe-IsCalm api.nodes node key) lists (λ json e. refl))
        (λ json g same. rw same (
          Ensures->>= (λ line g'. g' ≡ h) (λ done. Shows h0 c0 (c + 1)) Alive
            (lift (outcome (print_json api jsonl json)))
            (λ line. say api world (dht_node node line)) h
            (Ensures-outcome (λ line g'. g' ≡ h) Alive (print_json api jsonl json) h lists
              (λ line e. refl))
            (λ line g' same'. rw same' ((alive, lists), omega arith))))

  if_alive-Shows :
      (node : api.Node) (key : api.Key) (answer : Result Bool) (h0 h : List (Event api)) (c0 c : ℕ)
      → configured api dht_nodes node ≡ false
      → api.key_of node ≡ inr key
      → Shows h0 c0 c h
      → Ensures
          (Shows h0 c0)
          Alive
          (if_alive api world jsonl c node key answer (ping (api.key_id key) answer ∷ h)).0
          (if_alive api world jsonl c node key answer (ping (api.key_id key) answer ∷ h)).1
  unfolding if_alive total
  if_alive-Shows node key (inl e) h0 h c0 c new has shows = shows
  if_alive-Shows node key (inr false) h0 h c0 c new has shows = shows
  if_alive-Shows node key (inr true) h0 h c0 c new has shows =
      Ensures->>= (λ done. Shows h0 c0 (c + 1)) (Shows h0 c0) Alive
        (announce api world jsonl node key) (λ done. pure (c + 1))
        (ping (api.key_id key) (inr true) ∷ h)
        (announce-Shows node key h0 (ping (api.key_id key) (inr true) ∷ h) c0 c
          (new, (key, has, refl)) shows)
        (λ done g shows'. shows')

  new_node-Shows :
      (node : api.Node) (h0 h : List (Event api)) (c0 c : ℕ)
      → configured api dht_nodes node ≡ false
      → Shows h0 c0 c h
      → Ensures
          (Shows h0 c0)
          Alive
          (new_node api world jsonl c node h).0
          (new_node api world jsonl c node h).1
  new_node-Shows node h0 h c0 c new shows =
      Ensures->>= (λ key g. (api.key_of node ≡ inr key) × (g ≡ h)) (Shows h0 c0) Alive
        (lift (outcome (api.key_of node))) (ask_node api world jsonl c node) h
        (Ensures-outcome (λ key g. (api.key_of node ≡ inr key) × (g ≡ h)) Alive (api.key_of node) h
          shows.0 (λ key e. (e, refl)))
        (λ key g (has, same).
          rw same
            (if_alive-Shows node key (world.pinged h (api.key_id key)) h0 h c0 c new has shows))

  list_dht_nodes-Shows :
      (nodes : List api.Node) (h0 h : List (Event api)) (c0 c : ℕ)
      → Shows h0 c0 c h
      → Ensures
          (Shows h0 c0)
          Alive
          (list_dht_nodes api world jsonl dht_nodes c nodes h).0
          (list_dht_nodes api world jsonl dht_nodes c nodes h).1
  unfolding list_dht_nodes
  list_dht_nodes-Shows [] h0 h c0 c shows = shows
  list_dht_nodes-Shows (node ∷ nodes) h0 h c0 c shows =
      Ensures->>= (Shows h0 c0) (Shows h0 c0) Alive
        (if configured api dht_nodes node then pure c else new_node api world jsonl c node)
        (λ c'. list_dht_nodes api world jsonl dht_nodes c' nodes) h
        (elim (Bool-cases (configured api dht_nodes node)) [
          | inl old ↦ rw old shows
          | inr new ↦ rw new (new_node-Shows node h0 h c0 c new shows)
        ])
        (λ c' g shows'. list_dht_nodes-Shows nodes h0 g c0 c' shows')

  -- Where the list ends: with the number of nodes on it, or with the line that there are none.
  abbrev pub Listed : List (Event api) → List (Event api) → Type 0
  Listed h [] = ⊥
  Listed h (print (dht_total n) ∷ g) =
      Alive g × (total api (shown_in api) g ≡ total api (shown_in api) h + n)
  Listed h (print no_dht ∷ g) = Alive g × (total api (shown_in api) g ≡ total api (shown_in api) h)
  Listed h (_ ∷ g) = ⊥

  -- Where every node listed so far was alive: listing the DHT nodes does not panic; every node on the
  -- list, an unfinished one included, is not in the configuration and answered a ping just before;
  -- and a list that ends says how many they are, or that there are none.
  pub list_dht-Listed :
      (h : List (Event api))
      → ListsAlive api dht_nodes h
      → Ensures
          (λ done. Listed h)
          (ListsAlive api dht_nodes)
          (list_dht api world jsonl dht_nodes h).0
          (list_dht api world jsonl dht_nodes h).1
  unfolding list_dht total
  list_dht-Listed h lists =
      Ensures->>= (λ nodes g. g ≡ get_known_nodes ∷ h) (λ done. Listed h) Alive (known api world)
        (list_known api world jsonl dht_nodes) h
        (Ensures-outcome (λ nodes g. g ≡ get_known_nodes ∷ h) Alive (world.known h) _ lists
          (λ nodes e. refl))
        (λ nodes g same. rw same (elim (Bool-cases (ltb (length dht_nodes) (length nodes))) [
          | inr none_new ↦ rw none_new (lists, refl)
          | inl more ↦ rw more (
              Ensures->>= (Shows h 0) (λ done. Listed h) Alive
                (list_dht_nodes api world jsonl dht_nodes 0 nodes) (show_total api world)
                (print dht_header ∷ get_known_nodes ∷ h)
                (list_dht_nodes-Shows nodes h _ 0 0 (lists, omega arith))
                (λ n g' (lists', adds). (lists', omega arith)))
        ]))
