-- ===== src/DhtScan/Args.antt =====
-- The arguments of bin/dhtscan.rs.
pub mod Laws
use ever_node_tools.Prelude.{
  String, str_eq, Bool, true, false, Option, none, some, List, [], ◌∷◌, if◌then◌else◌,
}

-- the four variables of `main`
pub record Options : Type 0 where
  pub config : Option String
  pub jsonl : Bool
  pub overlay : Bool
  pub workchain0 : Bool

-- the body of the loop
unfoldable pub read_arg : Options → String → Options
read_arg options arg =
    if str_eq arg "--jsonl"
    then record options { jsonl = true }
    else if str_eq arg "--overlay"
    then record options { overlay = true }
    else if str_eq arg "--workchain0"
    then record options { workchain0 = true }
    else record options { config = some arg }

unfoldable pub read_args : Options → List String → Options
unfolding read_arg
read_args options [] = options
read_args options (arg ∷ args) = read_args (read_arg options arg) args

abbrev pub no_options : Options
no_options = record { config = none; jsonl = false; overlay = false; workchain0 = false }
