-- ===== src/AdnlResolve/Search/Silent.antt =====
-- One round of the search in bin/adnl_resolve.rs among nodes of which none responds: one more is bad.
use ever_node_tools.Prelude.{
  ◌≡◌, ◌≢◌, refl, ap, ◌∙◌, inl, inr, Bool, Bool-cases, true, false, Option, none, some, List, [],
  ◌∷◌, ◌++◌, All, All-get_elem?, All-remove_at, get_elem?, get_elem?-some, leb, length,
  if◌then◌else◌,
}
use ever_node_tools.Outcome.{ok, outcome, outcome-eq-ok}
use ever_node_tools.Io.{pure, perform, after, after_all, returned, Ensures-ok}
use ever_node_tools.AdnlResolve.Dht.{Api, Event, World, get_known_nodes, print}
use ever_node_tools.AdnlResolve.Search.{
  Scan, Round, found, next, contains, peer, keep, collect, with_nodes, with_known, refill, ask,
  settle, scanning_text, advance_at, advance, round_from,
}
use ever_node_tools.AdnlResolve.Search.Sound.{IsHonest, IsSound}
use ever_node_tools.AdnlResolve.Search.Safety.{refill_if-IsReady}
use ever_node_tools.AdnlResolve.Search.Finite.{Within, Within-append}

-- Every node that is known has its key in the universe, and no node responds.
pub record IsSilent (api : Api) (world : World api) (honest : IsHonest api world)
    (universe : List api.Key) : Type 0 where
  pub silent : (h : List (Event api)) (key : api.Key) → world.responds h key ≢ inr true
  pub within :
      (h : List (Event api)) (nodes : List api.Node)
      → world.known h ≡ inr nodes
      → All (λ node. contains api universe (honest.key_of node) ≡ true) nodes

module _ (api : Api) (world : World api) (honest : IsHonest api world) (universe : List api.Key)
    (silence : IsSilent api world honest universe) where
  open honest use {laws, key_of}

  abbrev pub In : List api.Key → Type 0
  In = Within api laws universe

  keep-In :
      (bad nodes : List api.Key) (answer : Option api.Key)
      → In nodes
      → ((key : api.Key) → answer ≡ some key → contains api universe key ≡ true)
      → In (keep api world bad answer nodes)
  keep-In bad nodes none within own = within
  keep-In bad nodes (some key) within own = elim (Bool-cases (contains api bad key)) [
    | inl old ↦ rw old within
    | inr new ↦ rw new (Within-append api laws universe nodes key within (own key refl))
  ]

  collect-In :
      (bad nodes : List api.Key) (known : List api.Node) (h : List (Event api)) {all : List api.Key}
      {g : List (Event api)}
      → In nodes
      → All (λ node. contains api universe (key_of node) ≡ true) known
      → collect api world bad nodes known h ≡ (ok all, g)
      → In all
  unfolding collect
  collect-In bad nodes [] h within inside done = returned (λ v _. In v) done within
  collect-In bad nodes (node ∷ known) h within (first, inside) done =
      after (peer api world node) _ h done refl λ answer e later.
        collect-In bad (keep api world bad answer nodes) known _
          (keep-In bad nodes answer within (λ key given.
            let mine =
              honest.added_own h node key (outcome-eq-ok (world.added h node) e ∙ ap inr given) in
            rw mine first))
          inside later

  -- A refill keeps the bad nodes.
  abbrev Refilled : Scan api.Key → Scan api.Key → Type 0
  Refilled s s' = (s'.bad_nodes ≡ s.bad_nodes) × In s'.nodes

  with_nodes-Refilled :
      (s : Scan api.Key) (all : List api.Key) (h : List (Event api)) {s' : Scan api.Key}
      {g : List (Event api)}
      → In all
      → with_nodes api world s all h ≡ (ok s', g)
      → Refilled s s'
  with_nodes-Refilled s [] h within done = cc (ap (λ p. p.0) done)
  with_nodes-Refilled s (key ∷ all) h within done =
      returned (λ v _. Refilled s v) done (refl, within)

  refill-Refilled :
      (s : Scan api.Key) (h : List (Event api)) {s' : Scan api.Key} {g : List (Event api)}
      → refill api world s h ≡ (ok s', g)
      → Refilled s s'
  unfolding refill
  refill-Refilled s h done =
      after (perform get_known_nodes (λ k. outcome (world.known k))) (with_known api world s) h done
        refl
        λ known e later.
          let inside = silence.within h known (outcome-eq-ok (world.known h) e) in
          after_all (collect api world s.bad_nodes [] known) (with_nodes api world s) _ later
            λ all g1 e1 d1.
              with_nodes-Refilled s all g1 (collect-In s.bad_nodes [] known _ tt inside e1) d1

  refill_if-Refilled :
      (s : Scan api.Key) (h : List (Event api)) {s' : Scan api.Key} {g : List (Event api)}
      → In s.nodes
      → (if leb (length s.nodes) s.index then refill api world s else pure s) h ≡ (ok s', g)
      → Refilled s s'
  refill_if-Refilled s h within done = elim (Bool-cases (leb (length s.nodes) s.index)) [
    | inl empty ↦ refill-Refilled s h (rw empty at done)
    | inr more ↦ returned (λ v _. Refilled s v) (rw more at done) (refl, within)
  ]

  -- One more node is bad, which was not before.
  abbrev pub Settled : Scan api.Key → Scan api.Key → Type 0
  Settled s s' =
      (key : api.Key) × (contains api s.bad_nodes key ≡ false)
      × (contains api universe key ≡ true)
      × (s'.bad_nodes ≡ s.bad_nodes ++ key ∷ [])
      × In s'.nodes

  settle-Settled :
      (s : Scan api.Key) (key : api.Key) (responsive : Bool) (h0 h : List (Event api))
      {s' : Scan api.Key} {g : List (Event api)}
      → IsSound api laws s h0
      → In s.nodes
      → get_elem? s.nodes s.index ≡ some key
      → responsive ≢ true
      → settle api world s key responsive h ≡ (ok s', g)
      → Settled s s'
  unfolding settle
  settle-Settled s key true h0 h sound within at_index silent done = absurd (silent refl)
  settle-Settled s key false h0 h sound within at_index silent done =
      returned (λ v _. Settled s v) done
        (
          key,
          All-get_elem? (λ k. contains api s.bad_nodes k ≡ false) s.nodes s.index sound.apart
              at_index,
          All-get_elem? (λ k. contains api universe k ≡ true) s.nodes s.index within at_index,
          refl,
          All-remove_at (λ k. contains api universe k ≡ true) s.nodes s.index within,
        )

  advance_at-Settled :
      (s : Scan api.Key) (key : api.Key) (h : List (Event api)) {s' : Scan api.Key}
      {g : List (Event api)}
      → IsSound api laws s h
      → In s.nodes
      → get_elem? s.nodes s.index ≡ some key
      → advance_at api world s (some key) h ≡ (ok s', g)
      → Settled s s'
  unfolding advance_at
  advance_at-Settled s key h sound within at_index done =
      let h1 = print (scanning_text api world s key) ∷ h in
      after (ask api world key) (settle api world s key) h1 done refl λ responsive e later.
        settle-Settled s key responsive h _ sound within at_index
          (λ yes. silence.silent h1 key (outcome-eq-ok (world.responds h1 key) e ∙ ap inr yes))
          later

  abbrev pub RoundSettled : Scan api.Key → Round api → Type 0
  RoundSettled s (found address) = Unit
  RoundSettled s (next s') = Settled s s'

  advance-Settled :
      (s : Scan api.Key) (h : List (Event api)) {r : Round api} {g : List (Event api)}
      → IsSound api laws s h
      → In s.nodes
      → (key : api.Key) × (get_elem? s.nodes s.index ≡ some key)
      → advance api world s h ≡ (ok r, g)
      → RoundSettled s r
  advance-Settled s h sound within (key, at_index) done =
      after_all (advance_at api world s (get_elem? s.nodes s.index)) (λ after. pure (next after)) h
        done
        λ s' g1 e1 d1.
          returned (λ v _. RoundSettled s v) d1
            (advance_at-Settled s key h sound within at_index (rw at_index at e1))

  from_refilled :
      (s s1 : Scan api.Key) (r : Round api)
      → s1.bad_nodes ≡ s.bad_nodes
      → RoundSettled s1 r
      → RoundSettled s r
  from_refilled s s1 (found address) same settled = tt
  from_refilled s s1 (next s') same settled = rw (← same) settled

  pub round_from-Settled :
      (s : Scan api.Key) (address : Option api.Found) (h : List (Event api)) {r : Round api}
      {g : List (Event api)}
      → IsSound api laws s h
      → In s.nodes
      → round_from api world s address h ≡ (ok r, g)
      → RoundSettled s r
  unfolding round_from
  round_from-Settled s (some address) h sound within done =
      returned (λ v _. RoundSettled s v) done tt
  round_from-Settled s none h {r} sound within done =
      let ready = if leb (length s.nodes) s.index then refill api world s else pure s in
      after_all ready (advance api world) h done λ s1 g1 e1 d1.
        let (same, within1) = refill_if-Refilled s h within e1 in
        let (sound1, inside) =
          Ensures-ok _ _ (ready h) (refill_if-IsReady api world honest s h sound) e1 in
        from_refilled s s1 r same
          (advance-Settled s1 g1 sound1 within1 (get_elem?-some s1.nodes s1.index inside) d1)
