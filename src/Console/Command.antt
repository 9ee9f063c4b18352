-- ===== src/Console/Command.antt =====
-- The commands of bin/console.rs: the table that the macro `commands!` is given, and the search by
-- name that its three generated `match`es make.
pub mod Table
use ever_node_tools.Prelude.{String, ◌<>◌, str_eq, Option, none, some, List, [], ◌∷◌, if◌then◌else◌}
use ever_node_tools.Outcome.{Outcome, ok, err}

pub data Command : Type 0 where
  add_adnl_addr add_validator_adnl_addr add_validator_perm_key add_validator_temp_key : Command
  bundle export_pub future_bundle get_account get_account_state get_blockchain_config : Command
  get_config get_session_stats get_selected_stats get_stats new_keypair send_message : Command
  set_states_gc_interval sign : Command

-- A row of the table: the command, its name and its help.
pub record Row : Type 0 where
  pub command : Command
  pub name : String
  pub help : String

abbrev row : Command → String → String → Row
row command name help = record { command = command; name = name; help = help }

unfoldable pub commands : List Row
commands =
    row add_adnl_addr "addadnl" "addadnl <keyhash> <category>\tuse key as ADNL addr"
    ∷ row add_validator_adnl_addr "addvalidatoraddr"
        "addvalidatoraddr <permkeyhash> <keyhash> <expireat>\tadd validator ADNL addr"
    ∷ row add_validator_perm_key "addpermkey"
        "addpermkey <keyhash> <election-date> <expire-at>\tadd validator permanent key"
    ∷ row add_validator_temp_key "addtempkey"
        "addtempkey <permkeyhash> <keyhash> <expire-at>\tadd validator temp key"
    ∷ row bundle "bundle" "bundle <block_id>\tprepare bundle"
    ∷ row export_pub "exportpub" "exportpub <keyhash>\texports public key by key hash"
    ∷ row future_bundle "future_bundle" "future_bundle <block_id>\tprepare future bundle"
    ∷ row get_account "getaccount" "getaccount <account id> <Option<file name>>\tget account info"
    ∷ row get_account_state "getaccountstate"
        "getaccountstate <account id> <file name>\tsave accountstate to file"
    ∷ row get_blockchain_config "getblockchainconfig"
        "getblockchainconfig\tget current config from masterchain state"
    ∷ row get_config "getconfig"
        "getconfig <param_number>\tget current config param from masterchain state"
    ∷ row get_session_stats "getconsensusstats"
        "getconsensusstats\tget consensus statistics for the node"
    ∷ row get_selected_stats "getstatsnew"
        "getstatsnew\tget status full node or validator in new format"
    ∷ row get_stats "getstats" "getstats\tget status full node or validator"
    ∷ row new_keypair "newkey" "newkey\tgenerates new key pair on server"
    ∷ row send_message "sendmessage"
        "sendmessage <filename>\tload a serialized message from <filename> and send it to server"
    ∷ row set_states_gc_interval "setstatesgcinterval"
        "setstatesgcinterval <milliseconds>\tset interval in <milliseconds> between shard states GC runs"
    ∷ row sign "sign" "sign <keyhash> <data>\tsigns bytestring with privkey"
    ∷ []

find_row : String → List Row → Option Row
find_row name [] = none
find_row name (r ∷ rows) = if str_eq name r.name then some r else find_row name rows

-- The arm of a generated `match name`; `none` is its last arm.
unfoldable pub find_command : String → Option Row
unfolding commands find_row
find_command name = find_row name commands

-- `_command_help`
unfoldable pub command_help : String → Outcome String
unfolding find_command
command_help name = elim (find_command name) [
  | some r ↦ ok r.help
  | none ↦ err ("command " <> (name <> " not supported"))
]
