-- ===== src/AdnlResolve/Search/Ends.antt =====
-- Where the nodes of the DHT are finitely many and none responds, the search of bin/adnl_resolve.rs ends.
use ever_node_tools.Prelude.{
  ℕ, zero, suc, ◌+◌, ◌<◌, ◌≡◌, ◌≢◌, refl, sym, ap, ◌∙◌, false, Option, none, some, List, [], ◌∷◌,
  length, length-append, arith,
}
use ever_node_tools.Outcome.{ok}
use ever_node_tools.Io.{Io, pure, after_all, Ensures-ok}
use ever_node_tools.Rust.Word.{Bytes}
use ever_node_tools.AdnlResolve.Dht.{Api, Event, World, find_address}
use ever_node_tools.AdnlResolve.Search.{Scan, Round, found, next, contains, round, search}
use ever_node_tools.AdnlResolve.Search.Keys.{Apart, Unique, Unique-append}
use ever_node_tools.AdnlResolve.Search.Sound.{failed, NeverRepeats, IsHonest, IsSound}
use ever_node_tools.AdnlResolve.Search.Safety.{RoundEnsures, round-Ensures, asked}
use ever_node_tools.AdnlResolve.Search.Finite.{Within, length-Within, Within-append}
use ever_node_tools.AdnlResolve.Search.Silent.{IsSilent, In, Settled, round_from-Settled}

module _ (api : Api) (world : World api) (honest : IsHonest api world) (universe : List api.Key)
    (silence : IsSilent api world honest universe) where
  open honest use {laws, key_of}

  -- What holds between two rounds.
  abbrev Bounded : Scan api.Key → List (Event api) → Type 0
  Bounded s h =
      IsSound api laws s h
      × Unique api laws s.bad_nodes
      × In api world honest universe silence s.bad_nodes
      × In api world honest universe silence s.nodes

  grown :
      (s s' : Scan api.Key) (h g : List (Event api))
      → Bounded s h
      → IsSound api laws s' g
      → Settled api world honest universe silence s s'
      → Bounded s' g × (length s'.bad_nodes ≡ length s.bad_nodes + 1)
  grown s s' h g (sound, unique, bad, nodes) sound' (key, new, inside, more, nodes') = (
    (
      sound',
      rw more (Unique-append api laws s.bad_nodes key new unique),
      rw more (Within-append api laws universe s.bad_nodes key bad inside),
      nodes',
    ),
    rw more (length-append s.bad_nodes (key ∷ []) ∙ omega arith),
  )

  round-next :
      (id : Bytes) (s s' : Scan api.Key) (h g : List (Event api))
      → Bounded s h
      → round api world id s h ≡ (ok (next s'), g)
      → Bounded s' g × (length s'.bad_nodes ≡ length s.bad_nodes + 1)
  unfolding round
  round-next id s s' h g bounded done =
      let sound = bounded.0 in
      grown s s' h g bounded
        (Ensures-ok (RoundEnsures api world honest) _ (round api world id s h)
          (round-Ensures api world honest id s h sound) done)
        (round_from-Settled api world honest universe silence s (world.address h id)
          (find_address id ∷ h) (asked api world honest s h id sound) bounded.3 done)

  go_on :
      (rounds : ℕ) (id : Bytes) (s : Scan api.Key) (h g1 g : List (Event api)) (r : Round api)
      → Bounded s h
      → round api world id s h ≡ (ok r, g1)
      → ((s' : Scan api.Key)
          → Bounded s' g1
          → length s'.bad_nodes ≡ length s.bad_nodes + 1
          → search api world rounds id s' g1 ≢ (ok none, g))
      → (elim r as (λ _. Io (Event api) (Option api.Found)) [
        | found address ↦ pure (some address)
        | next s' ↦ search api world rounds id s'
      ])
          g1
        ≢ (ok none, g)
  go_on rounds id s h g1 g (found address) bounded e rest done = cc (ap (λ p. p.0) done)
  go_on rounds id s h g1 g (next s') bounded e rest done =
      let (bounded', more) = round-next id s s' h g1 bounded e in rest s' bounded' more done

  search_ends_from :
      (rounds : ℕ) (id : Bytes) (s : Scan api.Key) (h g : List (Event api))
      → Bounded s h
      → length universe < length s.bad_nodes + rounds
      → search api world rounds id s h ≢ (ok none, g)
  unfolding search
  search_ends_from zero id s h g (sound, unique, bad, nodes) enough done =
      let fits = length-Within api laws s.bad_nodes universe unique bad in
      absurd (omega (arith, fits, enough))
  search_ends_from (suc rounds) id s h g bounded enough done =
      after_all (round api world id s) _ h done λ r g1 e later.
        go_on rounds id s h g1 g r bounded e
          (λ s' bounded' more.
            search_ends_from rounds id s' g1 g bounded' (omega (arith, more, enough)))
          later

  Apart-none : (keys : List api.Key) → Apart api laws [] keys
  unfolding contains
  Apart-none [] = tt
  Apart-none (k ∷ keys) = (refl, Apart-none keys)

  -- Where a peer gets the key of its own node and the DHT lists each node once: if the keys of the
  -- nodes that the search starts with, each once, and of all nodes that are ever known, are among
  -- those of a list, and no node ever responds, then a search in which no node has failed yet, with
  -- more rounds than the list is long, does not go on: it has found the address or has returned an
  -- error.
  pub search_ends :
      (rounds : ℕ) (id : Bytes) (nodes : List api.Key) (h : List (Event api))
      → NeverRepeats api h
      → ((k : api.Key) → failed api h k ≡ false)
      → Unique api laws nodes
      → Within api laws universe nodes
      → length universe < rounds
      → (search api world rounds id (record { nodes = nodes; bad_nodes = []; index = 0 }) h).0
        ≢ ok none
  unfolding contains
  search_ends rounds id nodes h never fresh unique within enough goes_on =
      let sound : IsSound api laws (record { nodes = nodes; bad_nodes = []; index = 0 }) h =
        record {
          agree = λ k. sym (fresh k);
          unique = unique;
          apart = Apart-none nodes;
          never = never;
        } in
      let run =
        search api world rounds id (record { nodes = nodes; bad_nodes = []; index = 0 }) h in
      search_ends_from rounds id (record { nodes = nodes; bad_nodes = []; index = 0 }) h run.1
        (sound, tt, tt, within) (omega (arith, enough)) (λ i. (goes_on i, run.1))
