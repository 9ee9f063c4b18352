-- ===== src/AdnlResolve/Search/Finds.antt =====
-- That the search of bin/adnl_resolve.rs finds an address which the DHT gives in the end.
use ever_node_tools.Prelude.{
  ℕ, zero, suc, ◌+◌, ◌≤◌, ◌<◌, ◌≡◌, ◌≢◌, refl, ap, inl, inr, Bool, Bool-cases, true, false, Option,
  none, some, List, [], ◌∷◌, length, length-append, leb, get_elem?, get_elem?-some, arith,
  if◌then◌else◌,
}
use ever_node_tools.Outcome.{outcome, outcome-IsCalm}
use ever_node_tools.Io.{Io, pure, Ensures, Ensures->>=, Ensures-lift}
use ever_node_tools.Rust.Word.{Bytes}
use ever_node_tools.AdnlResolve.Dht.{
  Api, World, Event, find_address, get_known_nodes, add_peer, find_dht_nodes, print,
}
use ever_node_tools.AdnlResolve.Search.{
  Scan, Round, found, next, keep, collect, with_nodes, with_known, refill, settle, scanning_text,
  advance_at, advance, round_from, round, search,
}
use ever_node_tools.AdnlResolve.Search.Pass.{asked}

module _ (api : Api) (world : World api) where
  abbrev pub Any : List (Event api) → Type 0
  Any g = Unit

  -- A call after which nobody more was asked.
  abbrev Same : {A : Type 0} → List (Event api) → A → List (Event api) → Type 0
  Same h a g = asked api g ≡ asked api h

  collect-Same :
      (bad nodes : List api.Key) (known : List api.Node) (h0 h : List (Event api))
      → asked api h ≡ asked api h0
      → Ensures
          (Same h0)
          Any
          (collect api world bad nodes known h).0
          (collect api world bad nodes known h).1
  unfolding collect
  collect-Same bad nodes [] h0 h same = same
  collect-Same bad nodes (node ∷ known) h0 h same =
      Ensures-lift (Same h0) Any (outcome (world.added h node))
        (λ key. collect api world bad (keep api world bad key nodes) known) (add_peer node ∷ h)
        (outcome-IsCalm (world.added h node)) tt
        (λ key added. collect-Same bad (keep api world bad key nodes) known h0 _ same)

  -- The state is ready to ask: its index is in range, and nobody more was asked.
  abbrev Ready : List (Event api) → Scan api.Key → List (Event api) → Type 0
  Ready h0 s g = (s.index < length s.nodes) × (asked api g ≡ asked api h0)

  with_nodes-Ready :
      (s : Scan api.Key) (all : List api.Key) (h0 h : List (Event api))
      → asked api h ≡ asked api h0
      → Ensures (Ready h0) Any (with_nodes api world s all h).0 (with_nodes api world s all h).1
  with_nodes-Ready s [] h0 h same = tt
  with_nodes-Ready s (key ∷ all) h0 h same = (omega arith, same)

  refill-Ready :
      (s : Scan api.Key) (h : List (Event api))
      → Ensures (Ready h) Any (refill api world s h).0 (refill api world s h).1
  unfolding refill
  refill-Ready s h =
      Ensures-lift (Ready h) Any (outcome (world.known h)) (with_known api world s)
        (get_known_nodes ∷ h) (outcome-IsCalm (world.known h)) tt
        λ known listed.
          Ensures->>= (Same h) (Ready h) Any (collect api world s.bad_nodes [] known)
            (with_nodes api world s) (get_known_nodes ∷ h)
            (collect-Same s.bad_nodes [] known h (get_known_nodes ∷ h) refl)
            (λ all g same. with_nodes-Ready s all h g same)

  refill_if-Ready :
      (s : Scan api.Key) (h : List (Event api))
      → Ensures
          (Ready h)
          Any
          ((if leb (length s.nodes) s.index then refill api world s else pure s) h).0
          ((if leb (length s.nodes) s.index then refill api world s else pure s) h).1
  refill_if-Ready s h = elim (Bool-cases (leb (length s.nodes) s.index)) [
    | inl empty ↦ rw empty (refill-Ready s h)
    | inr more ↦ rw more (ground arith, refl)
  ]

  -- One node more was asked.
  abbrev More : {A : Type 0} → List (Event api) → A → List (Event api) → Type 0
  More h a g = length (asked api g) ≡ suc (length (asked api h))

  settle-More :
      (s : Scan api.Key) (key : api.Key) (responsive : Bool) (h0 h : List (Event api))
      → length (asked api h) ≡ suc (length (asked api h0))
      → Ensures
          (More h0)
          Any
          (settle api world s key responsive h).0
          (settle api world s key responsive h).1
  unfolding settle
  settle-More s key true h0 h more = more
  settle-More s key false h0 h more = more

  advance_at-More :
      (s : Scan api.Key) (key : api.Key) (h0 h : List (Event api))
      → asked api h ≡ asked api h0
      → Ensures
          (More h0)
          Any
          (advance_at api world s (some key) h).0
          (advance_at api world s (some key) h).1
  unfolding advance_at
  advance_at-More s key h0 h same =
      let h1 = print (scanning_text api world s key) ∷ h in
      let one = length-append (asked api h) (key ∷ []) in
      Ensures-lift (More h0) Any (outcome (world.responds h1 key)) (settle api world s key)
        (find_dht_nodes key (world.responds h1 key) ∷ h1) (outcome-IsCalm (world.responds h1 key))
        tt
        (λ responsive answered.
          settle-More s key responsive h0 _ (omega (arith, one, ap (λ l. length l) same)))

  module _ (id : Bytes) where
    -- A round that goes on was not given the address, and has asked one node.
    abbrev Goes : List (Event api) → Round api → List (Event api) → Type 0
    Goes h (found address) g = Unit
    Goes h (next s) g = (world.address h id ≡ none) × More h s g

    advance-Goes :
        (s : Scan api.Key) (h0 h : List (Event api))
        → world.address h0 id ≡ none
        → Ready h0 s h
        → Ensures (Goes h0) Any (advance api world s h).0 (advance api world s h).1
    advance-Goes s h0 h unknown (inside, same) =
        let (key, at_index) = get_elem?-some s.nodes s.index inside in
        Ensures->>= (More h0) (Goes h0) Any (advance_at api world s (get_elem? s.nodes s.index))
          (λ after. pure (next after)) h (rw at_index (advance_at-More s key h0 h same))
          (λ after g more. (unknown, more))

    round_from-Goes :
        (s : Scan api.Key) (h : List (Event api)) (address : Option api.Found)
        → world.address h id ≡ address
        → Ensures
            (Goes h)
            Any
            (round_from api world s address (find_address id ∷ h)).0
            (round_from api world s address (find_address id ∷ h)).1
    unfolding round_from
    round_from-Goes s h (some address) known = tt
    round_from-Goes s h none unknown =
        Ensures->>= (Ready h) (Goes h) Any
          (if leb (length s.nodes) s.index then refill api world s else pure s) (advance api world)
          (find_address id ∷ h) (refill_if-Ready s (find_address id ∷ h))
          (λ ready g here. advance-Goes ready h g unknown here)

    abbrev pub Found : Option api.Found → List (Event api) → Type 0
    Found address g = address ≢ none

    abbrev rest_of : ℕ → Round api → Io (Event api) (Option api.Found)
    rest_of rounds result = elim result [
      | found address ↦ pure (some address)
      | next s ↦ search api world rounds id s
    ]

    go_on :
        (rounds : ℕ) (h g : List (Event api)) (result : Round api)
        → Goes h result g
        → ((s : Scan api.Key)
            → Goes h (next s) g
            → Ensures Found Any
                (search api world rounds id s g).0
                (search api world rounds id s g).1)
        → Ensures Found Any (rest_of rounds result g).0 (rest_of rounds result g).1
    go_on rounds h g (found address) goes later = λ same. cc
    go_on rounds h g (next s) goes later = later s goes

    -- If the DHT gives the address whenever at least `n` nodes have been asked, then a search with more
    -- rounds than there are nodes left to ask until then returns an address, or an error of a call: it
    -- does not go on, and it does not panic.
    pub search_finds :
        (rounds n : ℕ) (s : Scan api.Key) (h : List (Event api))
        → ((g : List (Event api)) → n ≤ length (asked api g) → world.address g id ≢ none)
        → n ≤ length (asked api h) + rounds
        → Ensures Found Any
            (search api world (suc rounds) id s h).0
            (search api world (suc rounds) id s h).1
    unfolding search round
    search_finds zero n s h given enough =
        Ensures->>= (Goes h) Found Any (round api world id s) (rest_of zero) h
          (round_from-Goes s h (world.address h id) refl)
          λ result g goes.
            go_on zero h g result goes
              λ s' (unknown, more). absurd (given h (omega (arith, enough)) unknown)
    search_finds (suc rounds) n s h given enough =
        Ensures->>= (Goes h) Found Any (round api world id s) (rest_of (suc rounds)) h
          (round_from-Goes s h (world.address h id) refl)
          λ result g goes.
            go_on (suc rounds) h g result goes
              λ s' (unknown, more). search_finds rounds n s' g given (omega (arith, enough, more))
