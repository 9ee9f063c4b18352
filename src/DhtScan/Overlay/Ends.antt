-- ===== src/DhtScan/Overlay/Ends.antt =====
-- The search for the nodes of an overlay in bin/dhtscan.rs ends where the network's positions do.
use ever_node_tools.Prelude.{
  ℕ, zero, suc, ◌<◌, ◌≡◌, refl, sym, ◌∙◌, Bool, Option, none, some, List, [], ◌∷◌, length, arith,
}
use ever_node_tools.Prelude.Int.{ℤ}
use ever_node_tools.Outcome.{outcome, outcome-IsCalm}
use ever_node_tools.Io.{Io, pure, Ensures, Ensures->>=, Ensures-lift}
use ever_node_tools.Io.Calm.{Ensures-quiet}
use ever_node_tools.DhtScan.Calm.{insert_all-IsCalmIo, progress-IsCalmIo, list_overlay-IsCalmIo}
use ever_node_tools.DhtScan.Net.{Api, Event, World, find_overlay_nodes}
use ever_node_tools.DhtScan.Overlay.{
  Overlays, insert_all, progress, with_answer, after_round, round, rounds, list_overlay, finish,
  scan_id, scan_overlay,
}

module _ (api : Api) (world : World api) (rank : api.Iter → ℕ) (n : ℕ) where
  -- how far a search is from its last position, at most
  abbrev pub left_of : Option api.Iter → ℕ
  left_of none = n
  left_of (some position) = rank position

  -- Every answer of the network brings a search nearer to its last position, or ends it.
  abbrev pub Advances : Type 0
  Advances =
      (h : List (Event api)) (id : api.OverlayId) (iter : Option api.Iter) (next : api.Iter)
      → (world.overlay_nodes h id iter).1 ≡ some next
      → rank next < left_of iter

  abbrev Anything : List (Event api) → Type 0
  Anything h = Unit

  abbrev pub Over : {A : Type 0} → Option A → List (Event api) → Type 0
  Over none h = ⊥
  Over (some a) h = Unit

  module _ (presets : ℕ) (search_overlay : Bool) (id : api.OverlayId) (workchain : ℤ) where
    abbrev Moves : Option api.Iter → Overlays api × Option api.Iter → List (Event api) → Type 0
    Moves iter position g = position.1 ≡ iter

    round-Moves :
        (o : Overlays api) (iter : Option api.Iter) (h : List (Event api))
        → Ensures
            (Moves (world.overlay_nodes h id iter).1)
            Anything
            (round api world presets search_overlay id workchain o iter h).0
            (round api world presets search_overlay id workchain o iter h).1
    unfolding round
    round-Moves o iter h =
        let answer = world.overlay_nodes h id iter in
        Ensures-lift (Moves answer.1) Anything (outcome answer.0)
          (with_answer api world presets search_overlay id workchain o answer.1)
          (find_overlay_nodes id ∷ h) (outcome-IsCalm answer.0) tt
          (λ res _.
            Ensures-quiet (Moves answer.1) (insert_all api world o res)
              (after_round api world presets search_overlay id workchain o answer.1) _
              (insert_all-IsCalmIo api world res o)
              (λ found g.
                Ensures-quiet (Moves answer.1)
                  (progress api world presets search_overlay id workchain (length o) (length found))
                  (λ _. pure (found, answer.1)) g
                  (progress-IsCalmIo api world presets search_overlay id workchain _ _)
                  (λ _ _. refl)))

    abbrev rest_of : ℕ → Overlays api × Option api.Iter → Io (Event api) (Option (Overlays api))
    rest_of fuel (found, next) = elim next [
      | none ↦ pure (some found)
      | some position ↦
          rounds api world fuel presets search_overlay id workchain found (some position)
    ]

    rest_of-Over :
        (fuel : ℕ) (found : Overlays api) (next : Option api.Iter) (g : List (Event api))
        → ((position : api.Iter)
            → next ≡ some position
            → Ensures Over Anything
                (rounds api world fuel presets search_overlay id workchain found
                  (some position)
                  g).0
                (rounds api world fuel presets search_overlay id workchain found
                  (some position)
                  g).1)
        → Ensures Over Anything (rest_of fuel (found, next) g).0 (rest_of fuel (found, next) g).1
    rest_of-Over fuel found none g ends = tt
    rest_of-Over fuel found (some position) g ends = ends position refl

    rounds-Over :
        Advances
        → (fuel : ℕ) (o : Overlays api) (iter : Option api.Iter) (h : List (Event api))
        → left_of iter < fuel
        → Ensures Over Anything
            (rounds api world fuel presets search_overlay id workchain o iter h).0
            (rounds api world fuel presets search_overlay id workchain o iter h).1
    unfolding rounds
    rounds-Over advances zero o iter h enough = absurd (omega arith)
    rounds-Over advances (suc fuel) o iter h enough =
        Ensures->>= (Moves (world.overlay_nodes h id iter).1) Over Anything
          (round api world presets search_overlay id workchain o iter) (rest_of fuel) h
          (round-Moves o iter h)
          (λ (found, next) g moved. rest_of-Over fuel found next g (λ position e.
            rounds-Over advances fuel found (some position) g
              (omega (arith, advances h id iter position (sym moved ∙ e)))))

    finish-Over :
        (found : Option (Overlays api)) (g : List (Event api))
        → Over found g
        → Ensures Over Anything
            (finish api world search_overlay id workchain found g).0
            (finish api world search_overlay id workchain found g).1
    finish-Over none g over = over
    finish-Over (some overlays) g over =
        Ensures-quiet Over (list_overlay api world search_overlay id workchain overlays)
          (λ _. pure (some tt)) g
          (list_overlay-IsCalmIo api world search_overlay id workchain overlays) (λ _ _. tt)

  -- With more rounds than there are positions a search of an overlay comes to its end, or an error.
  pub scan_overlay-Over :
      Advances
      → (fuel presets : ℕ) (search_overlay : Bool) (workchain : ℤ) (h : List (Event api)) → n < fuel
      → Ensures Over Anything
          (scan_overlay api world fuel presets search_overlay workchain h).0
          (scan_overlay api world fuel presets search_overlay workchain h).1
  unfolding scan_overlay
  scan_overlay-Over advances fuel presets search_overlay workchain h enough =
      Ensures-lift Over Anything (outcome (world.overlay_id workchain))
        (scan_id api world fuel presets search_overlay workchain) h
        (outcome-IsCalm (world.overlay_id workchain)) tt
        (λ id _.
          Ensures->>= Over Over Anything
            (rounds api world fuel presets search_overlay id workchain [] none)
            (finish api world search_overlay id workchain) h
            (rounds-Over presets search_overlay id workchain advances fuel [] none h enough)
            (finish-Over presets search_overlay id workchain))
