-- ===== src/AdnlResolve/Search/Pass.antt =====
-- One pass of the loop of `scan` in bin/adnl_resolve.rs over the nodes that it has.
use ever_node_tools.Prelude.{
  ℕ, suc, ◌+◌, ◌<>◌, String, ◌≡◌, refl, sym, ap, ◌∙◌, Bool, true, false, Option, none, some, List,
  [], ◌∷◌, ◌++◌, append_assoc, append-nil, length, length-append, leb, get_elem?, remove_at, inl,
  inr, arith,
}
use ever_node_tools.Outcome.{Outcome, ok, err, panic, Result}
use ever_node_tools.Io.{Io, pure, ◌>>=◌, continue}
use ever_node_tools.Rust.Word.{Bytes}
use ever_node_tools.AdnlResolve.Dht.{
  Api, World, Event, start, find_address, get_known_nodes, add_peer, find_dht_nodes, print,
}
use ever_node_tools.AdnlResolve.Search.{
  Scan, Round, found, next, settle, scanning_text, advance_at, round_from, round, search,
}

module _ {A : Type 0} where
  -- The place behind the first part of a list.
  get_elem?-append : (xs ys : List A) (y : A) → get_elem? (xs ++ y ∷ ys) (length xs) ≡ some y
  get_elem?-append [] ys y = refl
  get_elem?-append (x ∷ xs) ys y = get_elem?-append xs ys y

  remove_at-append : (xs ys : List A) (y : A) → remove_at (xs ++ y ∷ ys) (length xs) ≡ xs ++ ys
  remove_at-append [] ys y = refl
  remove_at-append (x ∷ xs) ys y = ap (λ l. x ∷ l) (remove_at-append xs ys y)

  leb-append : (xs ys : List A) (y : A) → leb (length (xs ++ y ∷ ys)) (length xs) ≡ false
  leb-append xs ys y =
      let longer = length-append xs (y ∷ ys) in
      let size : length (xs ++ y ∷ ys) ≡ length xs + suc (length ys) = longer in
      rw size (ground arith)

module _ (api : Api) where
  -- Who was asked for more nodes, in order.
  abbrev pub asked : List (Event api) → List api.Key
  asked [] = []
  asked (find_dht_nodes key answer ∷ h) = asked h ++ key ∷ []
  asked (find_address id ∷ h) = asked h
  asked (start ∷ h) = asked h
  asked (get_known_nodes ∷ h) = asked h
  asked (add_peer node ∷ h) = asked h
  asked (print text ∷ h) = asked h

  joined :
      (h : List (Event api)) (key : api.Key) (rest : List api.Key) (g : List (Event api))
      → asked g ≡ asked h ++ key ∷ []
      → asked g ++ rest ≡ asked h ++ key ∷ rest
  joined h key rest g more = rw more (append_assoc (asked h) (key ∷ []) rest)

module _ (api : Api) (world : World api) (id : Bytes) where
  -- the line that reports the address, right after the DHT gave it
  abbrev Reported : api.Found → List (Event api) → Type 0
  Reported address g =
      (h : List (Event api)) × (g
        ≡ print ("Found " <> api.found_text address) ∷ find_address id ∷ h)
      × (world.address h id ≡ some address)

  -- the error of the node asked last
  abbrev Refused : String → List (Event api) → Type 0
  Refused e g = (key : api.Key) × (h : List (Event api)) × (g ≡ find_dht_nodes key (inl e) ∷ h)

  -- The nodes that were asked since `h`, in order, come first among `nodes`.
  abbrev Begins : List api.Key → List (Event api) → List (Event api) → Type 0
  Begins nodes h g =
      (done rest : List api.Key) × (nodes ≡ done ++ rest) × (asked api g ≡ asked api h ++ done)

  abbrev pub Passed :
      List api.Key → List (Event api) → Outcome (Option api.Found) → List (Event api) → Type 0
  Passed nodes h (ok none) g = asked api g ≡ asked api h ++ nodes
  Passed nodes h (ok (some address)) g = Reported address g × Begins nodes h g
  Passed nodes h (err e) g = Refused e g × Begins nodes h g
  Passed nodes h (panic e) g = ⊥

  -- the state has these nodes before its index, and those from it on
  abbrev Splits : Scan api.Key → List api.Key → List api.Key → Type 0
  Splits s before rest = (s.nodes ≡ before ++ rest) × (s.index ≡ length before)

  abbrev Asks :
      api.Key → List api.Key → List (Event api) → Outcome (Round api) → List (Event api) → Type 0
  Asks key rest h (ok (found address)) g = Reported address g × (asked api g ≡ asked api h)
  Asks key rest h (ok (next s)) g =
      ((before : List api.Key) × Splits s before rest) × (asked api g ≡ asked api h ++ key ∷ [])
  Asks key rest h (err e) g = Refused e g × (asked api g ≡ asked api h ++ key ∷ [])
  Asks key rest h (panic e) g = ⊥

  abbrev at_node : Scan api.Key → api.Key → Io (Event api) (Round api)
  at_node s key = advance_at api world s (some key) >>= λ after. pure (next after)

  -- the round from the node on, once it is known to be there
  advance-Asks :
      (s : Scan api.Key) (before rest : List api.Key) (key : api.Key) (h : List (Event api))
      (answer : Result Bool)
      → Splits s before (key ∷ rest)
      → world.responds (print (scanning_text api world s key) ∷ find_address id ∷ h) key ≡ answer
      → Asks key rest h
          (at_node s key (find_address id ∷ h)).0
          (at_node s key (find_address id ∷ h)).1
  unfolding advance_at settle
  advance-Asks s before rest key h (inl e) splits answers = rw answers ((key, _, refl), refl)
  advance-Asks s before rest key h (inr true) (nodes, index) answers = rw answers (
    (
      before ++ key ∷ [],
      (
        nodes ∙ sym (append_assoc before (key ∷ []) rest),
        omega (arith, index, length-append before (key ∷ [])),
      ),
    ),
    refl,
  )
  advance-Asks s before rest key h (inr false) (nodes, index) answers =
      let left : remove_at s.nodes s.index ≡ before ++ rest =
        rw (nodes, index) (remove_at-append before rest key) in
      rw answers ((before, (left, index)), refl)

  round_from-Asks :
      (s : Scan api.Key) (before rest : List api.Key) (key : api.Key) (h : List (Event api))
      (address : Option api.Found)
      → Splits s before (key ∷ rest)
      → world.address h id ≡ address
      → Asks key rest h
          (round_from api world s address (find_address id ∷ h)).0
          (round_from api world s address (find_address id ∷ h)).1
  unfolding round_from
  round_from-Asks s before rest key h (some address) splits known = ((h, refl, known), refl)
  round_from-Asks s before rest key h none (nodes, index) known =
      let inside : leb (length s.nodes) s.index ≡ false =
        rw (nodes, index) (leb-append before rest key) in
      let there : get_elem? s.nodes s.index ≡ some key =
        rw (nodes, index) (get_elem?-append before rest key) in
      rw (inside, there) (advance-Asks s before rest key h _ (nodes, index) refl)

  round-Asks :
      (s : Scan api.Key) (before rest : List api.Key) (key : api.Key) (h : List (Event api))
      → Splits s before (key ∷ rest)
      → Asks key rest h (round api world id s h).0 (round api world id s h).1
  unfolding round
  round-Asks s before rest key h splits =
      round_from-Asks s before rest key h (world.address h id) splits refl

  abbrev go_on : ℕ → Outcome (Round api) → Io (Event api) (Option api.Found)
  go_on rounds r = continue r λ result. elim result [
    | found address ↦ pure (some address)
    | next s ↦ search api world rounds id s
  ]

  Begins-cons :
      (key : api.Key) (rest : List api.Key) (h g g' : List (Event api))
      → asked api g ≡ asked api h ++ key ∷ []
      → Begins rest g g'
      → Begins (key ∷ rest) h g'
  Begins-cons key rest h g g' more (done, left, parts, asks) =
      (key ∷ done, left, ap (λ l. key ∷ l) parts, asks ∙ joined api h key done g more)

  Passed-cons :
      (key : api.Key) (rest : List api.Key) (h g g' : List (Event api))
      (r : Outcome (Option api.Found))
      → asked api g ≡ asked api h ++ key ∷ []
      → Passed rest g r g'
      → Passed (key ∷ rest) h r g'
  Passed-cons key rest h g g' (ok none) more asks = asks ∙ joined api h key rest g more
  Passed-cons key rest h g g' (ok (some address)) more (reported, begins) =
      (reported, Begins-cons key rest h g g' more begins)
  Passed-cons key rest h g g' (err e) more (refused, begins) =
      (refused, Begins-cons key rest h g g' more begins)
  Passed-cons key rest h g g' (panic e) more never = never

  -- what is left of the pass behind a round
  Passed-Asks :
      (rounds : ℕ) (key : api.Key) (rest : List api.Key) (h g : List (Event api))
      (r : Outcome (Round api))
      → Asks key rest h r g
      → ((s : Scan api.Key) (before : List api.Key) (g' : List (Event api))
          → Splits s before rest
          → Passed rest g' (search api world rounds id s g').0 (search api world rounds id s g').1)
      → Passed (key ∷ rest) h (go_on rounds r g).0 (go_on rounds r g).1
  Passed-Asks rounds key rest h g (ok (found address)) (reported, same) later =
      (reported, ([], key ∷ rest, refl, same ∙ sym (append-nil _)))
  Passed-Asks rounds key rest h g (ok (next s)) ((before, splits), more) later =
      Passed-cons key rest h g _ _ more (later s before g splits)
  Passed-Asks rounds key rest h g (err e) (refused, more) later =
      (refused, (key ∷ [], rest, refl, more))
  Passed-Asks rounds key rest h g (panic e) never later = never

  search-Passed :
      (s : Scan api.Key) (before rest : List api.Key) (h : List (Event api))
      → Splits s before rest
      → Passed rest h
          (search api world (length rest) id s h).0
          (search api world (length rest) id s h).1
  unfolding search
  search-Passed s before [] h splits = sym (append-nil _)
  search-Passed s before (key ∷ rest) h splits =
      Passed-Asks (length rest) key rest h (round api world id s h).1 (round api world id s h).0
        (round-Asks s before rest key h splits) (λ s' before' g'. search-Passed s' before' rest g')

  -- A pass over the nodes of a fresh state: as many rounds as there are nodes. If the search goes on
  -- after them, it has asked each of these nodes once, in their order, and nobody else. If it returns
  -- an address, that is what the DHT gave just before the line that reports it, and if it returns an
  -- error, that is the answer of the node asked last; the nodes asked are then the first ones, in
  -- order. It does not panic.
  pub search_pass :
      (nodes bad : List api.Key) (h : List (Event api))
      → Passed nodes h
          (search api world
            (length nodes)
            id
            (record { nodes = nodes; bad_nodes = bad; index = 0 })
            h).0
          (search api world
            (length nodes)
            id
            (record { nodes = nodes; bad_nodes = bad; index = 0 })
            h).1
  search_pass nodes bad h = search-Passed _ [] nodes h (refl, refl)
