-- ===== src/DhtScan/Overlay/Counts.antt =====
-- The numbers that bin/dhtscan.rs prints of an overlay: of every round, and in the end.
use ever_node_tools.Prelude.{
  ℕ, zero, suc, ◌+◌, ◌≤◌, ◌≡◌, refl, true, Bool-cases, Option, none, some, List, [], ◌∷◌, inl, inr,
  length, arith,
}
use ever_node_tools.Prelude.Int.{ℤ}
use ever_node_tools.Outcome.{ok, outcome}
use ever_node_tools.Io.{Io, pure, lift, Ensures, Ensures->>=, Ensures-outcome}
use ever_node_tools.DhtScan.Net.{
  Api, Line, Event, World, start, add_peer, find_dht_nodes, find_overlay_nodes, get_known_nodes,
  ping, print, found_overlay, overlay_header, overlay_node, overlay_total,
}
use ever_node_tools.DhtScan.Overlay.{
  Overlays, sub_usize, insert, insert_all, progress, after_round, with_answer, round, rounds,
  list_nodes, list_overlay, finish, scan_id, scan_overlay,
}

module _ (api : Api) where
  abbrev pub found_in : Line api → ℕ
  found_in (found_overlay n id workchain) = n
  found_in _ = 0

  abbrev pub listed_in : Line api → ℕ
  listed_in (overlay_node ip node) = 1
  listed_in _ = 0

  -- what the lines of a kind add up to in a history
  unfoldable pub total : (Line api → ℕ) → List (Event api) → ℕ
  total count [] = 0
  total count (print line ∷ h) = count line + total count h
  total count (start ∷ h) = total count h
  total count (add_peer node ∷ h) = total count h
  total count (find_dht_nodes peer ∷ h) = total count h
  total count (find_overlay_nodes id ∷ h) = total count h
  total count (get_known_nodes ∷ h) = total count h
  total count (ping id answer ∷ h) = total count h

  length-insert :
      (id : api.KeyId) (value : api.Ip × api.Node) (o : Overlays api)
      → length o ≤ length (insert api id value o)
  unfolding insert
  length-insert id value [] = omega arith
  length-insert id value ((j, old) ∷ o) = elim (Bool-cases (api.same id j)) [
    | inl same ↦ rw same (omega arith)
    | inr other ↦ rw other (omega (arith, length-insert id value o))
  ]

module _ (api : Api) (world : World api) where
  abbrev Anything : List (Event api) → Type 0
  Anything h = Unit

  abbrev Grown : ℕ → List (Event api) → Overlays api → List (Event api) → Type 0
  Grown n h o g = (n ≤ length o) × (g ≡ h)

  -- Nodes only come to the map, and nothing is done outside.
  insert_all_grows :
      (n : ℕ) (res : List (api.Ip × api.Node)) (o : Overlays api) (h : List (Event api))
      → n ≤ length o
      → Ensures
          (Grown n h)
          Anything
          (insert_all api world o res h).0
          (insert_all api world o res h).1
  unfolding insert_all
  insert_all_grows n [] o h size = (size, refl)
  insert_all_grows n ((ip, node) ∷ res) o h size =
      Ensures->>= (λ key g. g ≡ h) (Grown n h) Anything (lift (outcome (api.key_of node)))
        (λ key. insert_all api world (insert api (api.key_id key) (ip, node) o) res) h
        (Ensures-outcome (λ key g. g ≡ h) Anything (api.key_of node) h tt (λ key e. refl))
        (λ key g same. rw same (
          insert_all_grows n res (insert api (api.key_id key) (ip, node) o) h
            (omega (arith, length-insert api (api.key_id key) (ip, node) o))))

  -- What a step adds to the sum of the numbers printed, it adds to the map.
  abbrev Adds : Overlays api → List (Event api) → Overlays api → List (Event api) → Type 0
  Adds o h o' g =
      (total api (found_in api) g + length o ≡ total api (found_in api) h + length o')
      × (total api (listed_in api) g ≡ total api (listed_in api) h)

  round-Adds :
      (presets : ℕ) (id : api.OverlayId) (workchain : ℤ) (o : Overlays api) (iter : Option api.Iter)
      (h : List (Event api))
      → Ensures
          (λ position g. Adds o h position.0 g)
          Anything
          (round api world presets true id workchain o iter h).0
          (round api world presets true id workchain o iter h).1
  unfolding round total progress sub_usize
  round-Adds presets id workchain o iter h =
      let h1 = find_overlay_nodes id ∷ h in
      let answer = world.overlay_nodes h id iter in
      Ensures->>= (λ res g. g ≡ h1) (λ position g. Adds o h position.0 g) Anything
        (lift (outcome answer.0)) (with_answer api world presets true id workchain o answer.1) h1
        (Ensures-outcome (λ res g. g ≡ h1) Anything answer.0 h1 tt (λ res e. refl))
        (λ res g same. rw same (
          Ensures->>= (Grown (length o) h1) (λ position g. Adds o h position.0 g) Anything
            (insert_all api world o res)
            (after_round api world presets true id workchain o answer.1) h1
            (insert_all_grows (length o) res o h1 (omega arith))
            (λ found g2 (grown, same2). rw same2 (ground arith))))

  -- The same of a search that has ended.
  abbrev AddsAll :
      Overlays api → List (Event api) → Option (Overlays api) → List (Event api) → Type 0
  AddsAll o h none g = Unit
  AddsAll o h (some o') g = Adds o h o' g

  abbrev rest_of :
      ℕ
      → ℕ
      → api.OverlayId
      → ℤ
      → Overlays api × Option api.Iter
      → Io (Event api) (Option (Overlays api))
  rest_of fuel presets id workchain (found, next) = elim next [
    | none ↦ pure (some found)
    | some position ↦ rounds api world fuel presets true id workchain found (some position)
  ]

  rounds-AddsAll :
      (fuel presets : ℕ) (id : api.OverlayId) (workchain : ℤ) (o : Overlays api)
      (iter : Option api.Iter) (h h0 : List (Event api)) (o0 : Overlays api)
      → Adds o0 h0 o h
      → Ensures
          (AddsAll o0 h0)
          Anything
          (rounds api world fuel presets true id workchain o iter h).0
          (rounds api world fuel presets true id workchain o iter h).1
  unfolding rounds
  rounds-AddsAll zero presets id workchain o iter h h0 o0 adds = tt
  rounds-AddsAll (suc fuel) presets id workchain o iter h h0 o0 adds =
      Ensures->>= (λ position g. Adds o h position.0 g) (AddsAll o0 h0) Anything
        (round api world presets true id workchain o iter) (rest_of fuel presets id workchain) h
        (round-Adds presets id workchain o iter h)
        (λ (found, next) g added.
          elim next
            as (λ n.
              Ensures (AddsAll o0 h0) Anything (rest_of fuel presets id workchain (found, n) g).0
                (rest_of fuel presets id workchain (found, n) g).1) [
                  | none ↦ omega arith
                  | some position ↦
                      rounds-AddsAll fuel presets id workchain found (some position) g h0 o0
                        (omega arith)
                ])

  -- Every entry is listed on a line of its own.
  list_nodes_lem :
      (entries : Overlays api) (h : List (Event api))
      → ((list_nodes api world entries h).0 ≡ ok tt)
        × (total api (listed_in api) (list_nodes api world entries h).1
            ≡ total api (listed_in api) h + length entries)
        × (total api (found_in api) (list_nodes api world entries h).1 ≡ total api (found_in api) h)
  unfolding list_nodes total
  list_nodes_lem [] h = (refl, omega arith, refl)
  list_nodes_lem ((id, (ip, node)) ∷ entries) h =
      let (done, listed, found) = list_nodes_lem entries (print (overlay_node ip node) ∷ h) in
      (done, omega arith, omega arith)

  -- What a search that ended says in the end: `n` nodes, which the rounds found and the list shows.
  abbrev pub Counted : List (Event api) → Option (Unit {0}) → List (Event api) → Type 0
  Counted h none g = Unit
  Counted h (some done) g =
      (n : ℕ) × (g' : List (Event api)) × (g ≡ print (overlay_total n) ∷ g')
      × (total api (found_in api) g ≡ total api (found_in api) h + n)
      × (total api (listed_in api) g ≡ total api (listed_in api) h + n)

  finish_counts :
      (id : api.OverlayId) (workchain : ℤ) (r : Option (Overlays api)) (h g : List (Event api))
      → ((m : Overlays api) → length (world.entries m) ≡ length m)
      → AddsAll [] h r g
      → Ensures
          (Counted h)
          Anything
          (finish api world true id workchain r g).0
          (finish api world true id workchain r g).1
  unfolding list_overlay total
  finish_counts id workchain none h g visits adds = tt
  finish_counts id workchain (some o) h g visits adds =
      let g1 = print (overlay_header id workchain) ∷ g in
      let (done, listed, found) = list_nodes_lem (world.entries o) g1 in
      rw done (
        length o,
        (list_nodes api world (world.entries o) g1).1,
        refl,
        omega (arith, visits o),
        omega (arith, visits o),
      )

  -- Where a hash map gives each of its entries once: a search for overlay nodes does not panic; if it
  -- ends, its last line gives a number which is the sum of the numbers printed in its rounds, and
  -- the number of nodes on its list.
  pub scan_overlay-Counted :
      ((m : Overlays api) → length (world.entries m) ≡ length m)
      → (fuel presets : ℕ) (workchain : ℤ) (h : List (Event api))
      → Ensures
          (Counted h)
          (λ g. Unit)
          (scan_overlay api world fuel presets true workchain h).0
          (scan_overlay api world fuel presets true workchain h).1
  unfolding scan_overlay
  scan_overlay-Counted visits fuel presets workchain h =
      Ensures->>= (λ id g. g ≡ h) (Counted h) Anything (lift (outcome (world.overlay_id workchain)))
        (scan_id api world fuel presets true workchain) h
        (Ensures-outcome (λ id g. g ≡ h) Anything (world.overlay_id workchain) h tt (λ id e. refl))
        (λ id g same. rw same (
          Ensures->>= (AddsAll [] h) (Counted h) Anything
            (rounds api world fuel presets true id workchain [] none)
            (finish api world true id workchain) h
            (rounds-AddsAll fuel presets id workchain [] none h h [] (refl, refl))
            (λ r g2 adds. finish_counts id workchain r h g2 visits adds)))
