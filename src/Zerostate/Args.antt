-- ===== src/Zerostate/Args.antt =====
-- The command line of bin/zerostate.rs, and `main` from it on.
use ever_node_tools.Prelude.{String, ◌≡◌, refl, true, some, List, [], ◌∷◌}
use ever_node_tools.Outcome.{expect_some}
use ever_node_tools.Io.{Io, lift, ◌>>=◌}
use ever_node_tools.Clap.{Arg, with_name, Matches, HasDefaults}
use ever_node_tools.Zerostate.Api.{Api, World, Event}
use ever_node_tools.Zerostate.Write.{main}

abbrev pub zerostate_args : List Arg
zerostate_args =
    record (with_name "INPUT") {
      short = some "i";
      long = some "input";
      help = some "input json filename with masterchain zerostate";
      required = true;
      default_value = some "zero_state.json";
      takes_value = true;
      number_of_values = some 1;
    }
    ∷ record (with_name "CONFIG") {
      short = some "c";
      long = some "config";
      help = some "config TVC filename to get its code";
      takes_value = true;
      number_of_values = some 1;
    }
    ∷ record (with_name "ELECTOR") {
      short = some "e";
      long = some "elector";
      help = some "elector TVC filename to get its code and data";
      takes_value = true;
      number_of_values = some 1;
    }
    ∷ []

module _ (api : Api) (world : World) where
  unfoldable pub run_main : Matches → Io Event (Unit {0})
  run_main args = do
    file_name ← lift (expect_some "required set for INPUT" (args.value_of "INPUT"))
    main api world file_name (args.value_of "CONFIG") (args.value_of "ELECTOR")

  -- Where the options have their defaults, the input always has a name.
  pub run_main_lem :
      (args : Matches)
      → HasDefaults zerostate_args args
      → (input : String) × (run_main args
          ≡ main api world input (args.value_of "CONFIG") (args.value_of "ELECTOR"))
  unfolding run_main
  run_main_lem args defaults =
      let (input, given) = defaults.0 "zero_state.json" refl in (input, rw given refl)
