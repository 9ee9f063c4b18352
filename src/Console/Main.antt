-- ===== src/Console/Main.antt =====
-- `ControlClient::command` and the two modes of `main` in bin/console.rs. Splitting a command into
-- words as a shell does is a parameter.
pub mod Laws
pub mod Quits
pub mod Batch
use ever_node_tools.Prelude.{
  ℕ, zero, suc, String, ◌<>◌, str_eq, Bool, true, false, ◌||◌, List, [], ◌∷◌, if◌then◌else◌,
}
use ever_node_tools.Outcome.{Outcome, ok, err, panic}
use ever_node_tools.Io.{Io, pure, lift, perform, ◌>>=◌, ◌>>◌}
use ever_node_tools.Rust.Str.{trim_quotes, trim_end}
use ever_node_tools.Console.Outside.{Api, World, Event, print, sleep, read_line}
use ever_node_tools.Console.Receive.{Reply}
use ever_node_tools.Console.Client.{process_command}
use ever_node_tools.Console.Bid.{Config}
use ever_node_tools.Console.Election.{process_election_bid, process_recover_stake}
use ever_node_tools.Console.ConfigParam.{process_config_param}
use ever_node_tools.Console.States.{States}

-- `shell_words::split`
abbrev pub Splitter : Type 0
Splitter = String → Outcome (List String)

module _ (api : Api) (world : World api.Answer) (states : States api.Cell) (config : Config api.F32)
    (split : Splitter) where
  -- the `match` on the first word
  unfoldable pub dispatch : List String → Io Event Reply
  dispatch [] = lift (panic "takes_value set for COMMANDS")
  dispatch (name ∷ params) =
      if str_eq name "recover_stake"
      then process_recover_stake api world params
      else if str_eq name "ebid" || str_eq name "election-bid" || str_eq name "election_bid"
      then process_election_bid api world config params
      else if str_eq name "config_param" || str_eq name "cparam"
      then process_config_param api world states params
      else process_command api world name params

  unfoldable pub command : String → Io Event Reply
  command cmd = do words ← lift (split cmd); dispatch words

  abbrev say : String → Io Event (Unit {0})
  say text = perform (print text) (λ h. ok tt)

  -- what `main` prints of a result, with what it puts before an error
  abbrev pub show : String → Outcome Reply → Io Event (Unit {0})
  show prefix (ok (text, bytes)) = say text
  show prefix (err e) = say (prefix <> e)
  show prefix (panic e) = lift (panic e)

  abbrev pub run : String → String → Io Event (Unit {0})
  run prefix cmd h = let (result, h') = command cmd h in show prefix result h'

  abbrev pub pause : ℕ → Io Event (Unit {0})
  pause timeout = perform (sleep timeout) (λ h. ok tt)

  -- batch mode, with the timeout in nanoseconds
  unfoldable pub batch : ℕ → List String → Io Event (Unit {0})
  batch timeout [] = pure tt
  batch timeout (cmd ∷ commands) = do
    run "Error executing command: " (trim_quotes cmd)
    pause timeout
    batch timeout commands

  -- What one line does, and whether it ends the loop.
  unfoldable pub line_done : String → Io Event Bool
  line_done cmd =
      if str_eq cmd ""
      then pure false
      else if str_eq cmd "quit"
      then pure true
      else do run "" cmd; pure false

  -- `read_line` past the end of the input reads an empty line.
  abbrev pub next_line : List String → String × List String
  next_line [] = ("", [])
  next_line (line ∷ lines) = (line, lines)

  -- Interactive mode over the lines of the input; the number of rounds is the model's, and `false`
  -- says that the loop has not ended in so many.
  unfoldable pub interactive : ℕ → List String → Io Event Bool
  interactive zero lines = pure false
  interactive (suc rounds) lines = do
    perform read_line (λ h. ok tt)
    quit ← line_done (trim_end (next_line lines).0)
    let rest = interactive rounds (next_line lines).1
    if quit then pure true else rest
