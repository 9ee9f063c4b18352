-- ===== src/DhtScan/Args/Laws.antt =====
-- The arguments of bin/dhtscan.rs by themselves, whatever their order.
use ever_node_tools.Prelude.{
  String, str_eq, ◌≡◌, ◌∙◌, Bool, false, ◌||◌, Option, some, List, [], ◌∷◌, inl, inr, Bool-cases,
  arith, if◌then◌else◌, eq_iff,
}
use ever_node_tools.DhtScan.Args.{Options, read_arg, read_args}

-- The flag stands among the arguments.
abbrev pub given : String → List String → Bool
given flag [] = false
given flag (arg ∷ args) = str_eq arg flag || given flag args

abbrev pub is_flag : String → Bool
is_flag arg = str_eq arg "--jsonl" || str_eq arg "--overlay" || str_eq arg "--workchain0"

-- The last argument that is no flag, or else the path given first.
abbrev pub last_path : Option String → List String → Option String
last_path path [] = path
last_path path (arg ∷ args) = last_path (if is_flag arg then path else some arg) args

-- What one argument does to each variable.
read_arg_lem :
    (o : Options) (arg : String)
    → read_arg o arg ≡ record {
      config = if is_flag arg then o.config else some arg;
      jsonl = o.jsonl || str_eq arg "--jsonl";
      overlay = o.overlay || str_eq arg "--overlay";
      workchain0 = o.workchain0 || str_eq arg "--workchain0";
    }
unfolding read_arg
read_arg_lem o arg = elim (Bool-cases (str_eq arg "--jsonl")) [
  | inl e1 ↦ let same = (eq_iff arg "--jsonl").0 e1 in rw same (ground arith)
  | inr n1 ↦ elim (Bool-cases (str_eq arg "--overlay")) [
    | inl e2 ↦ let same = (eq_iff arg "--overlay").0 e2 in rw same (ground arith)
    | inr n2 ↦ elim (Bool-cases (str_eq arg "--workchain0")) [
      | inl e3 ↦ let same = (eq_iff arg "--workchain0").0 e3 in rw same (ground arith)
      | inr n3 ↦ rw (n1, n2, n3) (ground arith)
    ]
  ]
]

-- Reading the arguments one by one gives the last that is no flag for the path, and every flag that
-- stands anywhere among them.
pub read_args_lem :
    (o : Options) (args : List String)
    → read_args o args ≡ record {
      config = last_path o.config args;
      jsonl = o.jsonl || given "--jsonl" args;
      overlay = o.overlay || given "--overlay" args;
      workchain0 = o.workchain0 || given "--workchain0" args;
    }
unfolding read_args
read_args_lem o [] = ground arith
read_args_lem o (arg ∷ args) =
    read_args_lem (read_arg o arg) args ∙ rw (read_arg_lem o arg) (ground arith)
