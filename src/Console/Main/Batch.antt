-- ===== src/Console/Main/Batch.antt =====
-- What the batch mode of bin/console.rs executes.
use ever_node_tools.Prelude.{ℕ, String, ◌<>◌, ◌≡◌, refl, ◌∙◌, List, [], ◌∷◌, All}
use ever_node_tools.Outcome.{Outcome, ok, err, panic, IsCalm}
use ever_node_tools.Io.{Io, ◌>>◌}
use ever_node_tools.Rust.Str.{trim_quotes}
use ever_node_tools.Console.Outside.{Api, World, Event, print, sleep}
use ever_node_tools.Console.Receive.{Reply}
use ever_node_tools.Console.Bid.{Config}
use ever_node_tools.Console.Main.{Splitter, command, show, pause, batch}
use ever_node_tools.Console.States.{States}

-- the line that is printed for a command
abbrev pub line_of : Outcome Reply → String
line_of (ok (text, bytes)) = text
line_of (err e) = "Error executing command: " <> e
line_of (panic e) = e

module _ (api : Api) (world : World api.Answer) (states : States api.Cell) (config : Config api.F32)
    (split : Splitter) where
  -- The history of a batch: for each command what it does, the line for its result, and the pause.
  unfoldable pub executed : ℕ → List String → List Event → List Event
  executed timeout [] h = h
  executed timeout (cmd ∷ commands) h =
      let (result, h') = command api world states config split (trim_quotes cmd) h in
      executed timeout commands (sleep timeout ∷ print (line_of result) ∷ h')

  show-then :
      (result : Outcome Reply) (timeout : ℕ) (rest : Io Event (Unit {0})) (g : List Event)
      → IsCalm result
      → (show api world states config split "Error executing command: " result
            >> (pause api world states config split timeout >> rest))
          g
        ≡ rest (sleep timeout ∷ print (line_of result) ∷ g)
  show-then (ok reply) timeout rest g calm = refl
  show-then (err e) timeout rest g calm = refl
  show-then (panic e) timeout rest g calm = elim calm [ ]

  -- If none of its commands panics, whenever it is executed, then a batch ends normally, and it has
  -- executed each command, without the quotation marks around it, printed one line for its result or
  -- its error, and paused, in this order and command by command; an error ends nothing.
  pub batch-executed :
      (timeout : ℕ) (commands : List String) (h : List Event)
      → All
          (λ cmd.
            (g : List Event) → IsCalm (command api world states config split (trim_quotes cmd) g).0)
          commands
      → batch api world states config split timeout commands h
        ≡ (ok tt, executed timeout commands h)
  unfolding batch executed
  batch-executed timeout [] h calm = refl
  batch-executed timeout (cmd ∷ commands) h (calm, others) =
      let (result, g) = command api world states config split (trim_quotes cmd) h in
      show-then result timeout (batch api world states config split timeout commands) g (calm h)
      ∙ batch-executed timeout commands (sleep timeout ∷ print (line_of result) ∷ g) others
