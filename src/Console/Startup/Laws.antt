-- ===== src/Console/Startup/Laws.antt =====
-- What `main` of bin/console.rs does with its command line.
use ever_node_tools.Prelude.{String, ◌≡◌, ◌⊎◌, Bool, true, false, some, List, ◌∷◌}
use ever_node_tools.Outcome.{Outcome, ok, err, panic}
use ever_node_tools.Io.{Io}
use ever_node_tools.Console.Outside.{Api, World, Event, print, read_file}
use ever_node_tools.Console.Startup.Args.{Options}
use ever_node_tools.Console.Startup.{Connection}

module _ (api : Api) (world : World api.Answer) (connection : Connection api.F32) where
  -- Without an event but the banner and the reading of the configuration.
  abbrev pub banner_shown : Bool → List Event → List Event
  banner_shown true h = h
  banner_shown false h = print connection.banner ∷ h

  abbrev pub prepared : String → Bool → List Event → List Event
  prepared path json h = read_file path ∷ banner_shown json h

  -- A value or a panic, and a history of this kind.
  abbrev pub EndsIn : {A : Type 0} → (List Event → Type 0) → Outcome A × List Event → Type 0
  EndsIn P (ok a, g) = P g
  EndsIn P (err e, g) = ⊥
  EndsIn P (panic e, g) = P g

  -- Nothing was done but to show the banner, if that, and to read the configuration, if that.
  abbrev pub IsStart : Options → List Event → List Event → Type 0
  IsStart options h g =
      (g ≡ banner_shown options.json h)
      ⊎ ((path : String) × (options.config ≡ some path) × (g ≡ prepared path options.json h))
