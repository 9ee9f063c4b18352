-- ===== src/Tests/Modes.antt =====
-- The two modes of the console, and a zerostate with one parameter.
use ever_node_tools.Prelude.{
  ℕ, String, arith, str_eq, false, ◌≡◌, ◌↔◌, refl, some, none, List, [], ◌∷◌, if◌then◌else◌,
}
use ever_node_tools.Outcome.{Outcome, ok}
use ever_node_tools.Rust.Word.{Bytes}
use ever_node_tools.Rust.Str.{trim_quotes}
use ever_node_tools.Rust.Utf8.{as_bytes, from_utf8}
use ever_node_tools.Console.Outside.{World, Event}
use ever_node_tools.Console.Params.{parse_any, parse_int}
use ever_node_tools.Console.Bid.{Config}
use ever_node_tools.Console.Receive.{Reply}
use ever_node_tools.Console.States.{States, find_param}
use ever_node_tools.Console.ConfigParam.{process_config_param}
use ever_node_tools.Console.ConfigParam.Trace.{Extracted, process_config_param_iff}
use ever_node_tools.Outcome.{IsCalm}
use ever_node_tools.Console.Command.{find_command}
use ever_node_tools.Console.Send.{send, command_send}
use ever_node_tools.Console.Receive.{receive_key_hash}
use ever_node_tools.Console.Client.{process_command, read_answer, command_receive, receive}
use ever_node_tools.Tests.Node.{encode, answer}
use ever_node_tools.Console.Main.Batch.{executed, batch-executed}
use ever_node_tools.Console.Main.{Splitter, command, dispatch, batch, interactive}
use ever_node_tools.Console.Main.Laws.{reads, interactive_spins}
use ever_node_tools.Console.Main.Quits.{Quits, interactive-Quits}
use ever_node_tools.Rust.Str.{trim_end}
use ever_node_tools.Tests.Node.{Answer, node, world}
use ever_node_tools.Tests.Node.{value}

-- one word, or none
abbrev pub split : Splitter
split text = if str_eq text "" then ok [] else ok (text ∷ [])

abbrev pub config : Config ℕ
config = record { wallet_id = none; max_factor = none }

abbrev pub states : States Bytes
states = record {
  JsonMap = String;
  json_map_from_str = ok;
  State = String;
  parse_state = ok;
  Extra = String;
  read_custom = λ state. ok (some state);
  Slice = Bytes;
  index_key = λ index. ok [];
  config_param = λ extra key. ok (some (as_bytes extra));
  first_reference = some;
}

no_words : split (trim_quotes "\"\"") ≡ ok []
unfolding trim_quotes
no_words = refl

interactive_spins_example :
    interactive node world states config split 1000 [] []
    ≡ (ok false, reads node world states config split 1000 [])
interactive_spins_example = interactive_spins node world states config split 1000 []

newkey-IsCalm :
    (g : List Event)
    → IsCalm (command node world states config split (trim_quotes "\"newkey\"") g).0
unfolding command dispatch process_command command_send find_command send encode answer read_answer
    command_receive receive receive_key_hash trim_quotes
newkey-IsCalm g = tt

unknown-IsCalm :
    (g : List Event) → IsCalm (command node world states config split (trim_quotes "nonsense") g).0
unfolding command dispatch process_command command_send find_command trim_quotes
unknown-IsCalm g = tt

batch-executed_example :
    batch node world states config split 1500000 ("nonsense" ∷ "\"newkey\"" ∷ []) []
    ≡ (ok tt, executed node world states config split 1500000 ("nonsense" ∷ "\"newkey\"" ∷ []) [])
batch-executed_example =
    batch-executed node world states config split 1500000 ("nonsense" ∷ "\"newkey\"" ∷ []) []
      (unknown-IsCalm, (newkey-IsCalm, tt))

quit_trims : trim_end "quit\n" ≡ "quit"
unfolding trim_end
quit_trims = refl

interactive-Quits_example :
    Quits
      (interactive node world states config split 3
        ("newkey\n" ∷ "\n" ∷ "quit\n" ∷ "newkey\n" ∷ [])
        []).0
interactive-Quits_example =
    interactive-Quits node world states config split 3 ("newkey\n" ∷ "\n" ∷ []) "quit\n"
      ("newkey\n" ∷ []) [] quit_trims (omega arith)

-- the example world with a file that can be read
abbrev files : World Answer
files = record world { contents = λ h path. ok (as_bytes "{}") }

abbrev param_run : Outcome Reply × List Event
param_run = process_config_param node files states ("15" ∷ "zerostate.json" ∷ []) []

param_runs : param_run ≡ (ok (value param_run.0), param_run.1)
unfolding process_config_param parse_int parse_any trim_quotes as_bytes from_utf8 find_param
param_runs = refl

process_config_param_iff_example :
    (param_run ≡ (ok (value param_run.0), param_run.1))
    ↔ Extracted node files states
        ("15" ∷ "zerostate.json" ∷ [])
        "config-param.boc"
        []
        (value param_run.0)
        param_run.1
process_config_param_iff_example =
    process_config_param_iff node files states ("15" ∷ "zerostate.json" ∷ []) [] (value param_run.0)
      param_run.1
