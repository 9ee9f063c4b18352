-- ===== src/Console/Startup/Args.antt =====
-- The command line of bin/console.rs.
use ever_node_tools.Prelude.{String, ◌≡◌, refl, Bool, true, Option, some, List, [], ◌∷◌}
use ever_node_tools.Clap.{Arg, with_name, Matches, HasDefaults}

-- What `main` asks of the matches.
pub record Options : Type 0 where
  pub config : Option String
  pub commands : Option (List String)
  pub timeout : Option String
  pub verbose : Bool
  pub json : Bool

abbrev pub options_of : Matches → Options
options_of args = record {
  config = args.value_of "CONFIG";
  commands = args.values_of "COMMANDS";
  timeout = args.value_of "TIMEOUT";
  verbose = args.is_present "VERBOSE";
  json = args.is_present "JSON";
}

abbrev pub console_args : List Arg
console_args =
    record (with_name "CONFIG") {
      short = some "C";
      long = some "config";
      help = some "config for console";
      required = true;
      default_value = some "console.json";
      takes_value = true;
      number_of_values = some 1;
    }
    ∷ record (with_name "COMMANDS") {
      short = some "c";
      long = some "cmd";
      help = some "schedule command";
      takes_value = true;
      multiple = true;
      allow_hyphen_values = true;
    }
    ∷ record (with_name "TIMEOUT") {
      short = some "t";
      long = some "timeout";
      help = some "timeout in batch mode";
      takes_value = true;
      number_of_values = some 1;
    }
    ∷ record (with_name "VERBOSE") { long = some "verbose"; help = some "verbose regim" }
    ∷ record (with_name "JSON") {
      short = some "j";
      long = some "json";
      help = some "output in json format";
    }
    ∷ []

-- The path of the configuration is always given.
pub config_given :
    (args : Matches)
    → HasDefaults console_args args
    → (path : String) × ((options_of args).config ≡ some path)
config_given args defaults = defaults.0 "console.json" refl
