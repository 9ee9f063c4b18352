-- ===== src/DbPrint/Args.antt =====
-- The command line of bin/print.rs.
use ever_node_tools.Prelude.{String, ◌≡◌, refl, Bool, true, Option, some, List, [], ◌∷◌}
use ever_node_tools.Clap.{Arg, with_name, Matches, HasDefaults}

-- What `main` asks of the matches.
pub record Options : Type 0 where
  pub path : Option String
  pub block : Option String
  pub state : Option String
  pub shards : Option String
  pub last_accounts : Bool
  pub boc : Option String
  pub brief : Bool

abbrev pub options_of : Matches → Options
options_of args = record {
  path = args.value_of "PATH";
  block = args.value_of "BLOCK";
  state = args.value_of "STATE";
  shards = args.value_of "SHARDS";
  last_accounts = args.is_present "LAST_ACCOUNTS";
  boc = args.value_of "BOC";
  brief = args.is_present "BRIEF";
}

abbrev pub print_args : List Arg
print_args =
    record (with_name "PATH") {
      short = some "p";
      long = some "path";
      help = some "path to DB";
      default_value = some "node_db";
      takes_value = true;
      number_of_values = some 1;
    }
    ∷ record (with_name "BLOCK") {
      short = some "b";
      long = some "block";
      help = some "print block";
      takes_value = true;
      number_of_values = some 1;
    }
    ∷ record (with_name "STATE") {
      short = some "s";
      long = some "state";
      help = some "print state";
      takes_value = true;
      number_of_values = some 1;
    }
    ∷ record (with_name "SHARDS") {
      short = some "r";
      long = some "shards";
      help = some "shard ids from master with seqno";
      takes_value = true;
      number_of_values = some 1;
    }
    ∷ record (with_name "LAST_ACCOUNTS") {
      long = some "accounts";
      help =
          some
            "print all accounts from all shards of workchains and masterchain for last applied state";
    }
    ∷ record (with_name "BOC") {
      short = some "c";
      long = some "boc";
      help = some "print containtment of bag of cells";
      takes_value = true;
      number_of_values = some 1;
    }
    ∷ record (with_name "BRIEF") {
      short = some "i";
      long = some "brief";
      help =
          some
            "print brief info (block without messages and transactions, state without accounts) ";
    }
    ∷ []

-- The path of the database is always given.
pub path_given :
    (args : Matches)
    → HasDefaults print_args args
    → (path : String) × ((options_of args).path ≡ some path)
path_given args defaults = defaults.0 "node_db" refl
