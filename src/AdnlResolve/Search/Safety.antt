-- ===== src/AdnlResolve/Search/Safety.antt =====
-- The rounds of the search in bin/adnl_resolve.rs: refill, advance and settle, and their sequence.
use mathlib.Core.List.{map}
use ever_node_tools.Prelude.{
  String, ℕ, zero, suc, ◌<◌, ◌≡◌, refl, inl, inr, Bool, Bool-cases, Option, none, some, List, [],
  ◌∷◌, leb, length, get_elem?, get_elem?-some, arith, if◌then◌else◌,
}
use ever_node_tools.Io.{Io, pure, perform, Ensures, Ensures->>=}
use ever_node_tools.Rust.Word.{Bytes}
use ever_node_tools.AdnlResolve.Dht.{
  Api, Event, World, Result, outcome, find_address, get_known_nodes, find_dht_nodes, print,
}
use ever_node_tools.AdnlResolve.Search.{
  scanning_text, advance, with_nodes, with_known, Scan, Round, found, next, contains, collect,
  refill, ask, settle, advance_at, round_from, round, search,
}
use ever_node_tools.AdnlResolve.Search.Keys.{Unique}
use ever_node_tools.AdnlResolve.Search.Sound.{
  failed, NeverRepeats, IsHonest, IsSound, fresh, settle-IsSound, unfailed, IsQuietly, Good,
  Disjoint, collect-Good,
}

module _ (api : Api) (world : World api) (honest : IsHonest api world) where
  open honest use {laws, key_of}

  -- The state after a refill: sound, with a node at the index.
  abbrev IsReady : Scan api.Key → List (Event api) → Type 0
  IsReady s h = IsSound api laws s h × (s.index < length s.nodes)

  pub all-Disjoint : (known : List api.Node) → Disjoint api world honest [] known
  unfolding contains
  all-Disjoint [] = tt
  all-Disjoint (node ∷ known) = (refl, all-Disjoint known)

  known-Good :
      (s : Scan api.Key) (h : List (Event api)) (answer : Result (List api.Node))
      → ((nodes : List api.Node) → answer ≡ inr nodes → Unique api laws (map key_of nodes))
      → NeverRepeats api h
      → Ensures
          (λ nodes g. Unique api laws (map key_of nodes) × IsQuietly api world honest h g)
          (NeverRepeats api)
          (outcome answer)
          (get_known_nodes ∷ h)
  unfolding failed
  known-Good s h (inl e) once never = never
  known-Good s h (inr nodes) once never = (once nodes refl, ((λ k. refl), never))

  with_nodes-IsReady :
      (s : Scan api.Key) (h : List (Event api))
      → IsSound api laws s h
      → (nodes : List api.Key) (g : List (Event api)) → Good api world honest s.bad_nodes h nodes g
      → Ensures IsReady
          (NeverRepeats api)
          (with_nodes api world s nodes g).0
          (with_nodes api world s nodes g).1
  with_nodes-IsReady s h sound [] g good = good.2.1
  with_nodes-IsReady s h sound (key ∷ nodes) g (u, a, (same, never)) = (
    record {
      agree = unfailed api world honest s h g same sound.agree;
      unique = u;
      apart = a;
      never = never;
    },
    omega arith,
  )

  refill-IsReady :
      (s : Scan api.Key) (h : List (Event api))
      → IsSound api laws s h
      → Ensures IsReady (NeverRepeats api) (refill api world s h).0 (refill api world s h).1
  unfolding refill
  refill-IsReady s h sound =
      Ensures->>= (λ nodes g. Unique api laws (map key_of nodes) × IsQuietly api world honest h g)
        IsReady (NeverRepeats api) (perform get_known_nodes (λ g. outcome (world.known g)))
        (with_known api world s) h
        (known-Good s h (world.known h) (honest.known_once h) sound.never)
        (λ known g (once, q).
          Ensures->>= (Good api world honest s.bad_nodes h) IsReady (NeverRepeats api)
            (collect api world s.bad_nodes [] known) (with_nodes api world s) g
            (collect-Good api world honest s.bad_nodes [] known h g (tt, tt, q) once
              (all-Disjoint known))
            (with_nodes-IsReady s h sound))

  -- The answer of the node that is asked.
  ask-settle :
      (s : Scan api.Key) (key : api.Key) (h : List (Event api)) (answer : Result Bool)
      → IsSound api laws s h
      → get_elem? s.nodes s.index ≡ some key
      → Ensures
          (λ responsive g. (IsSound api laws s h) × (g ≡ find_dht_nodes key (inr responsive) ∷ h))
          (NeverRepeats api)
          (outcome answer)
          (find_dht_nodes key answer ∷ h)
  ask-settle s key h (inl e) sound at_index =
      (fresh api world honest s key h sound at_index, sound.never)
  ask-settle s key h (inr responsive) sound at_index = (sound, refl)

  said :
      (s : Scan api.Key) (h : List (Event api)) (text : String)
      → IsSound api laws s h
      → IsSound api laws s (print text ∷ h)
  unfolding failed
  said s h text sound = record {
    agree = sound.agree;
    unique = sound.unique;
    apart = sound.apart;
    never = sound.never;
  }

  advance_at-IsSound :
      (s : Scan api.Key) (key : api.Key) (h : List (Event api))
      → IsSound api laws s h
      → get_elem? s.nodes s.index ≡ some key
      → Ensures
          (IsSound api laws)
          (NeverRepeats api)
          (advance_at api world s (some key) h).0
          (advance_at api world s (some key) h).1
  unfolding advance_at
  advance_at-IsSound s key h sound at_index =
      let sound' = said s h (scanning_text api world s key) sound in
      let g = print (scanning_text api world s key) ∷ h in
      Ensures->>=
        (λ responsive g'. IsSound api laws s g × (g' ≡ find_dht_nodes key (inr responsive) ∷ g))
        (IsSound api laws) (NeverRepeats api) (ask api world key) (settle api world s key) g
        (ask-settle s key g (world.responds g key) sound' at_index)
        (λ responsive g' (sound2, same).
          rw same (settle-IsSound api world honest s key responsive g sound2 at_index))

  -- What a round ensures.
  abbrev pub RoundEnsures : Round api → List (Event api) → Type 0
  RoundEnsures (found address) h = NeverRepeats api h
  RoundEnsures (next s) h = IsSound api laws s h

  pub refill_if-IsReady :
      (s : Scan api.Key) (h : List (Event api))
      → IsSound api laws s h
      → Ensures IsReady
          (NeverRepeats api)
          ((if leb (length s.nodes) s.index then refill api world s else pure s) h).0
          ((if leb (length s.nodes) s.index then refill api world s else pure s) h).1
  refill_if-IsReady s h sound = elim (Bool-cases (leb (length s.nodes) s.index)) [
    | inl empty ↦ rw empty (refill-IsReady s h sound)
    | inr more ↦ rw more (sound, ground arith)
  ]

  advanced :
      (s : Scan api.Key) (h : List (Event api))
      → IsSound api laws s h
      → (key : api.Key) × (get_elem? s.nodes s.index ≡ some key)
      → Ensures RoundEnsures (NeverRepeats api) (advance api world s h).0 (advance api world s h).1
  advanced s h sound (key, at_index) =
      Ensures->>= (IsSound api laws) RoundEnsures (NeverRepeats api)
        (advance_at api world s (get_elem? s.nodes s.index)) (λ after. pure (next after)) h
        (rw at_index (advance_at-IsSound s key h sound at_index)) (λ s2 g2 sound2. sound2)

  round_from-Ensures :
      (s : Scan api.Key) (address : Option api.Found) (h : List (Event api))
      → IsSound api laws s h
      → Ensures RoundEnsures
          (NeverRepeats api)
          (round_from api world s address h).0
          (round_from api world s address h).1
  unfolding round_from
  round_from-Ensures s (some address) h sound = sound.never
  round_from-Ensures s none h sound =
      Ensures->>= IsReady RoundEnsures (NeverRepeats api)
        (if leb (length s.nodes) s.index then refill api world s else pure s) (advance api world) h
        (refill_if-IsReady s h sound)
        (λ s' g (sound', within). advanced s' g sound' (get_elem?-some s'.nodes s'.index within))

  pub asked :
      (s : Scan api.Key) (h : List (Event api)) (id : Bytes)
      → IsSound api laws s h
      → IsSound api laws s (find_address id ∷ h)
  unfolding failed
  asked s h id sound = record {
    agree = sound.agree;
    unique = sound.unique;
    apart = sound.apart;
    never = sound.never;
  }

  pub round-Ensures :
      (id : Bytes) (s : Scan api.Key) (h : List (Event api))
      → IsSound api laws s h
      → Ensures RoundEnsures
          (NeverRepeats api)
          (round api world id s h).0
          (round api world id s h).1
  unfolding round
  round-Ensures id s h sound =
      round_from-Ensures s (world.address h id) (find_address id ∷ h) (asked s h id sound)

  abbrev rest_of : ℕ → Bytes → Round api → Io (Event api) (Option api.Found)
  rest_of rounds id result = elim result [
    | found address ↦ pure (some address)
    | next s' ↦ search api world rounds id s'
  ]

  -- From a sound state, a search of any number of rounds never panics, and its history asks nobody
  -- again who failed to respond.
  pub search-NeverRepeats :
      (rounds : ℕ) (id : Bytes) (s : Scan api.Key) (h : List (Event api))
      → IsSound api laws s h
      → Ensures
          (λ address. NeverRepeats api)
          (NeverRepeats api)
          (search api world rounds id s h).0
          (search api world rounds id s h).1
  unfolding search
  search-NeverRepeats zero id s h sound = sound.never
  search-NeverRepeats (suc rounds) id s h sound =
      Ensures->>= RoundEnsures (λ address. NeverRepeats api) (NeverRepeats api)
        (round api world id s) (rest_of rounds id) h (round-Ensures id s h sound)
        (λ result g.
          elim result
            as (λ r.
              RoundEnsures r g
              → Ensures (λ address. NeverRepeats api) (NeverRepeats api) (rest_of rounds id r g).0
                  (rest_of rounds id r g).1) [
                    | found address ↦ λ never. never
                    | next s' ↦ λ sound'. search-NeverRepeats rounds id s' g sound'
                  ])
