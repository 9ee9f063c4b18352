-- ===== src/Clap.antt =====
-- The command lines that the tools give to clap, as data, and what clap gives back.
use ever_node_tools.Prelude.{ℕ, String, ◌≡◌, Bool, false, Option, none, some, List, All}

-- `clap::Arg`, with what the tools say of an option
pub record Arg : Type 0 where
  pub name : String
  pub short : Option String
  pub long : Option String
  pub help : Option String
  pub required : Bool
  pub default_value : Option String
  pub takes_value : Bool
  pub number_of_values : Option ℕ
  pub multiple : Bool
  pub allow_hyphen_values : Bool

abbrev pub with_name : String → Arg
with_name name = record {
  name = name;
  short = none;
  long = none;
  help = none;
  required = false;
  default_value = none;
  takes_value = false;
  number_of_values = none;
  multiple = false;
  allow_hyphen_values = false;
}

-- `clap::ArgMatches`
pub record Matches : Type 0 where
  pub value_of : String → Option String
  pub values_of : String → Option (List String)
  pub is_present : String → Bool

-- What clap documents of a default: an option that has one always has a value.
abbrev pub HasDefaults : List Arg → Matches → Type 0
HasDefaults args matches =
    All
      (λ arg.
        (default : String)
        → arg.default_value ≡ some default
        → (value : String) × (matches.value_of arg.name ≡ some value))
      args
