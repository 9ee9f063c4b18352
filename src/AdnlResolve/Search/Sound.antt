-- ===== src/AdnlResolve/Search/Sound.antt =====
-- What holds between two rounds of the search in bin/adnl_resolve.rs, and the steps that keep it.
use mathlib.Core.List.{map}
use ever_node_tools.Prelude.{
  ◌≡◌, refl, inl, inr, Bool, Bool-cases, true, false, ◌||◌, Option, none, some, List, [], ◌∷◌, ◌++◌,
  get_elem?, remove_at, All, All-get_elem?, All-remove_at, arith,
}
use ever_node_tools.Io.{Ensures, Ensures->>=}
use ever_node_tools.AdnlResolve.Dht.{
  Api, start, Event, World, Result, outcome, IsLawful, find_address, get_known_nodes, add_peer,
  find_dht_nodes, print,
}
use ever_node_tools.AdnlResolve.Search.{Scan, contains, peer, keep, collect, settle}
use ever_node_tools.AdnlResolve.Search.Keys.{
  Unique, Apart, contains-append, Unique-append, Apart-append, Unique-remove_at, others-remove_at,
  Apart-grow, same_comm,
}

module _ (api : Api) where
  open api use {Key, same}

  -- The history has the key among those that did not respond.
  unfoldable pub failed : List (Event api) → Key → Bool
  failed [] k = false
  failed (find_dht_nodes j (inr false) ∷ h) k = same j k || failed h k
  failed (find_dht_nodes j (inr true) ∷ h) k = failed h k
  failed (find_dht_nodes j (inl e) ∷ h) k = failed h k
  failed (find_address id ∷ h) k = failed h k
  failed (start ∷ h) k = failed h k
  failed (get_known_nodes ∷ h) k = failed h k
  failed (add_peer node ∷ h) k = failed h k
  failed (print text ∷ h) k = failed h k

  -- Nobody is asked who failed to respond before.
  abbrev pub NeverRepeats : List (Event api) → Type 0
  NeverRepeats [] = Unit
  NeverRepeats (find_dht_nodes j answer ∷ h) = (failed h j ≡ false) × NeverRepeats h
  NeverRepeats (find_address id ∷ h) = NeverRepeats h
  NeverRepeats (start ∷ h) = NeverRepeats h
  NeverRepeats (get_known_nodes ∷ h) = NeverRepeats h
  NeverRepeats (add_peer node ∷ h) = NeverRepeats h
  NeverRepeats (print text ∷ h) = NeverRepeats h

-- What the search relies on: equality of keys, that a peer gets the key of its node, and that the
-- DHT lists each node once.
pub record IsHonest (api : Api) (world : World api) : Type 0 where
  pub laws : IsLawful api
  pub key_of : api.Node → api.Key
  pub added_own :
      (h : List (Event api)) (node : api.Node) (key : api.Key)
      → world.added h node ≡ inr (some key)
      → key ≡ key_of node
  pub known_once :
      (h : List (Event api)) (nodes : List api.Node)
      → world.known h ≡ inr nodes
      → Unique api laws (map key_of nodes)

-- What holds between two rounds.
pub record IsSound (api : Api) (laws : IsLawful api) (s : Scan api.Key) (h : List (Event api))
    : Type 0 where
  pub agree : (k : api.Key) → contains api s.bad_nodes k ≡ failed api h k
  pub unique : Unique api laws s.nodes
  pub apart : Apart api laws s.bad_nodes s.nodes
  pub never : NeverRepeats api h

module _ (api : Api) (world : World api) (honest : IsHonest api world) where
  open honest use {laws, key_of}

  -- The node at the index did not fail before.
  pub fresh :
      (s : Scan api.Key) (key : api.Key) (h : List (Event api))
      → IsSound api laws s h
      → get_elem? s.nodes s.index ≡ some key
      → failed api h key ≡ false
  fresh s key h sound at_index =
      let apart =
        All-get_elem? (λ k. contains api s.bad_nodes k ≡ false) s.nodes s.index sound.apart
          at_index in
      cc (sound.agree key, apart)

  pub settle-IsSound :
      (s : Scan api.Key) (key : api.Key) (responsive : Bool) (h : List (Event api))
      → IsSound api laws s h
      → get_elem? s.nodes s.index ≡ some key
      → Ensures
          (IsSound api laws)
          (NeverRepeats api)
          (settle api world s key responsive (find_dht_nodes key (inr responsive) ∷ h)).0
          (settle api world s key responsive (find_dht_nodes key (inr responsive) ∷ h)).1
  unfolding settle failed
  settle-IsSound s key true h sound at_index = record {
    agree = sound.agree;
    unique = sound.unique;
    apart = sound.apart;
    never = (fresh s key h sound at_index, sound.never);
  }
  settle-IsSound s key false h sound at_index = record {
    agree = λ k. ground (arith, contains-append api laws s.bad_nodes key k, sound.agree k);
    unique = Unique-remove_at api laws s.nodes s.index sound.unique;
    apart =
        Apart-grow api laws s.bad_nodes (remove_at s.nodes s.index) key
          (All-remove_at _ s.nodes s.index sound.apart)
          (others-remove_at api laws s.nodes s.index sound.unique at_index);
    never = (fresh s key h sound at_index, sound.never);
  }

  pub unfailed :
      (s : Scan api.Key) (h g : List (Event api))
      → ((k : api.Key) → failed api g k ≡ failed api h k)
      → ((k : api.Key) → contains api s.bad_nodes k ≡ failed api h k)
      → (k : api.Key) → contains api s.bad_nodes k ≡ failed api g k
  unfailed s h g same agree k = cc (same k, agree k)

  -- The history says the same of who failed, and asked nobody again.
  abbrev pub IsQuietly : List (Event api) → List (Event api) → Type 0
  IsQuietly h g = ((k : api.Key) → failed api g k ≡ failed api h k) × NeverRepeats api g

  abbrev pub Good : List api.Key → List (Event api) → List api.Key → List (Event api) → Type 0
  Good bad h nodes g = Unique api laws nodes × Apart api laws bad nodes × IsQuietly h g

  -- The keys of the nodes are none of those collected.
  abbrev pub Disjoint : List api.Key → List api.Node → Type 0
  Disjoint nodes = All (λ node. contains api nodes (key_of node) ≡ false)

  Disjoint-append :
      (nodes : List api.Key) (key : api.Key) (known : List api.Node)
      → Disjoint nodes known
      → contains api (map key_of known) key ≡ false
      → Disjoint (nodes ++ key ∷ []) known
  unfolding contains
  Disjoint-append nodes key [] _ _ = tt
  Disjoint-append nodes key (node ∷ known) (d, apart) new = (
    ground (
      arith,
      contains-append api laws nodes key (key_of node),
      same_comm api laws key (key_of node),
    ),
    Disjoint-append nodes key known apart (ground arith),
  )

  abbrev pub Collecting :
      List api.Key → List (Event api) → List api.Node → List api.Key → List (Event api) → Type 0
  Collecting bad h known nodes g = Good bad h nodes g × Disjoint nodes known

  -- A peer joins the nodes unless it is bad.
  pub peer-Good :
      (bad nodes : List api.Key) (node : api.Node) (known : List api.Node) (h g : List (Event api))
      (answer : Result (Option api.Key))
      → ((key : api.Key) → answer ≡ inr (some key) → key ≡ key_of node)
      → Collecting bad h (node ∷ known) nodes g
      → contains api (map key_of known) (key_of node) ≡ false
      → Ensures
          (λ key. Collecting bad h known (keep api world bad key nodes))
          (NeverRepeats api)
          (outcome answer)
          (add_peer node ∷ g)
  unfolding failed
  peer-Good bad nodes node known h g (inl e) own (good, d) new = good.2.1
  peer-Good bad nodes node known h g (inr none) own (good, (d, apart)) new = (good, apart)
  peer-Good bad nodes node known h g (inr (some key)) own ((u, a, q), (d, apart)) new =
      let mine = own key refl in
      elim (Bool-cases (contains api bad key)) [
        | inl known_bad ↦ rw known_bad (((u, a, q), apart))
        | inr fine ↦ rw fine (
            (
              (
                Unique-append api laws nodes key (cc (mine, d)) u,
                Apart-append api laws bad nodes key fine a,
                q,
              ),
              Disjoint-append nodes key known apart (cc (mine, new)),
            ))
      ]

  pub collect-Good :
      (bad nodes : List api.Key) (known : List api.Node) (h g : List (Event api))
      → Good bad h nodes g
      → Unique api laws (map key_of known)
      → Disjoint nodes known
      → Ensures
          (Good bad h)
          (NeverRepeats api)
          (collect api world bad nodes known g).0
          (collect api world bad nodes known g).1
  unfolding collect failed
  collect-Good bad nodes [] h g good unique apart = good
  collect-Good bad nodes (node ∷ known) h g good (new, unique) (d, apart) =
      Ensures->>= (λ key. Collecting bad h known (keep api world bad key nodes)) (Good bad h)
        (NeverRepeats api) (peer api world node)
        (λ key. collect api world bad (keep api world bad key nodes) known) g
        (peer-Good bad nodes node known h g (world.added g node) (honest.added_own g node)
          (good, (d, apart)) new)
        (λ key g' (good', apart').
          collect-Good bad (keep api world bad key nodes) known h g' good' unique apart')
