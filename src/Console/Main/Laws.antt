-- ===== src/Console/Main/Laws.antt =====
-- What ends the two modes of `main` in bin/console.rs.
use ever_node_tools.Prelude.{ℕ, zero, suc, String, ◌≡◌, ◌≢◌, refl, List, [], ◌∷◌, false}
use ever_node_tools.Outcome.{Outcome, ok, err, panic}
use ever_node_tools.Io.{Io, ◌>>◌}
use ever_node_tools.Rust.Str.{trim_quotes, trim_end}
use ever_node_tools.Console.Outside.{Api, World, Event, read_line}
use ever_node_tools.Console.Receive.{Reply}
use ever_node_tools.Console.Bid.{Config}
use ever_node_tools.Console.Main.{Splitter, command, show, pause, batch, line_done, interactive}
use ever_node_tools.Console.States.{States}

module _ (api : Api) (world : World api.Answer) (states : States api.Cell) (config : Config api.F32)
    (split : Splitter) where
  -- What is printed and what comes after, if that gives no error.
  shown :
      (result : Outcome Reply) (timeout : ℕ) (rest : Io Event (Unit {0})) (g : List Event)
      (e : String)
      → ((g' : List Event) → (rest g').0 ≢ err e)
      → ((show api world states config split "Error executing command: " result
            >> (pause api world states config split timeout >> rest))
          g).0
        ≢ err e
  shown (ok reply) timeout rest g e fine same = fine _ same
  shown (err text) timeout rest g e fine same = fine _ same
  shown (panic text) timeout rest g e fine same = cc

  -- Whatever its commands give, a batch never ends with an error.
  pub batch_goes_on :
      (timeout : ℕ) (commands : List String) (h : List Event) (e : String)
      → (batch api world states config split timeout commands h).0 ≢ err e
  unfolding batch
  batch_goes_on timeout [] h e done = cc
  batch_goes_on timeout (cmd ∷ commands) h e done =
      let words = trim_quotes cmd in
      shown (command api world states config split words h).0 timeout
        (batch api world states config split timeout commands)
        (command api world states config split words h).1 e
        (λ g. batch_goes_on timeout commands g e) done

  -- The history with so many more lines read.
  abbrev pub reads : ℕ → List Event → List Event
  reads zero h = h
  reads (suc rounds) h = reads rounds (read_line ∷ h)

  -- At the end of the input interactive mode does not end: after any number of rounds it is still
  -- running, and has done nothing but read that many lines.
  pub interactive_spins :
      (rounds : ℕ) (h : List Event)
      → interactive api world states config split rounds [] h ≡ (ok false, reads rounds h)
  unfolding interactive line_done trim_end
  interactive_spins zero h = refl
  interactive_spins (suc rounds) h = interactive_spins rounds (read_line ∷ h)
