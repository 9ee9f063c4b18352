-- ===== src/Console/States.antt =====
-- Finding a parameter of the configuration in the text of a zerostate, as `process_config_param` of
-- bin/console.rs does.
use ever_node_tools.Prelude.{String, ◌<>◌, Option}
use ever_node_tools.Prelude.Int.{ℤ}
use ever_node_tools.Outcome.{Outcome, ok_or, map_err, ◌>>=◌}
use ever_node_tools.Rust.Print.{print_ℤ}

-- The zerostate in ton_block and ton_block_json.
pub record States (Cell : Type 0) : Type 1 where
  pub JsonMap : Type 0
  pub json_map_from_str : String → Outcome JsonMap
  pub State : Type 0
  pub parse_state : JsonMap → Outcome State
  pub Extra : Type 0
  pub read_custom : State → Outcome (Option Extra)
  pub Slice : Type 0
  -- an index as the key of the dictionary
  pub index_key : ℤ → Outcome Slice
  pub config_param : Extra → Slice → Outcome (Option Slice)
  pub first_reference : Slice → Option Cell

abbrev pub about : ℤ → String → String
about index text = "Can't " <> (text <> (" config param " <> print_ℤ index))

abbrev unread : String → String
unread e = "Can't parse read zerostate json file: " <> e

module _ {Cell : Type 0} (states : States Cell) where
  -- the cell of the parameter in the text of a zerostate
  unfoldable pub find_param : ℤ → String → Outcome Cell
  find_param index text = do
    json ← map_err unread (states.json_map_from_str text)
    state ← map_err unread (states.parse_state json)
    key ← states.index_key index
    custom ←
        map_err (λ e. "Can't read McStateExtra from zerostate: " <> e) (states.read_custom state)
    extra ← ok_or "Can't find McStateExtra in zerostate" custom
    param ←
        map_err (λ e. about index "read" <> (" from zerostate: " <> e))
          (states.config_param extra key)
    slice ← ok_or (about index "find" <> " in zerostate") param
    ok_or (about index "parse" <> ": wrong format - no reference") (states.first_reference slice)
