-- ===== src/Console/Send.antt =====
-- `send` of every command in bin/console.rs, and the choice among them.
pub mod Requests
pub mod Laws
pub mod Bounds
pub mod Typed
use ever_node_tools.Prelude.{
  ℕ, String, ◌<>◌, ◌||◌, Option, none, some, List, [], ◌∷◌, get_elem?, if◌then◌else◌,
}
use ever_node_tools.Prelude.Int.{ℤ, pos, ltb_ℤ}
use ever_node_tools.Outcome.{Outcome, ok, err, panic, ok_or}
use ever_node_tools.Io.{Io, pure, fail, lift, perform, map_err, ◌>>=◌}
use ever_node_tools.Rust.Word.{Bytes, sub_i32, as_i32}
use ever_node_tools.Console.Outside.{Api, World, Event, read_clock, read_file}
use ever_node_tools.Console.Outside.{Request, get_stats, get_selected_stats, get_session_stats}
use ever_node_tools.Console.Outside.{
  generate_key_pair, export_public_key, add_validator_permanent_key, add_validator_temp_key,
  add_validator_adnl_address, add_adnl_id, get_bundle, get_future_bundle, get_config_all,
  get_config_params, get_shard_account_state,
}
use ever_node_tools.Console.Params.{
  insufficient, parse_int, parse_data, parse_int256, parse_blockid,
}
use ever_node_tools.Console.Command.{Command, find_command}
unfoldable pub use ever_node_tools.Console.Send.Requests.*

module _ (api : Api) (world : World api.Answer) where
  unfoldable pub send : Command → List String → Io Event (Query api)
  send Command.get_stats params = stats_request api world params
  send Command.get_selected_stats params = selected_stats_request api world params
  send Command.get_session_stats params = session_stats_request api world params
  send Command.new_keypair params = keypair_request api world params
  send Command.export_pub params = export_pub_request api world params
  send Command.sign params = sign_request api world params
  send Command.add_validator_perm_key params = perm_key_request api world params
  send Command.add_validator_temp_key params = temp_key_request api world params
  send Command.add_validator_adnl_addr params = validator_addr_request api world params
  send Command.add_adnl_addr params = adnl_addr_request api world params
  send Command.bundle params = bundle_request api world params
  send Command.future_bundle params = future_bundle_request api world params
  send Command.send_message params = message_request api world params
  send Command.get_blockchain_config params = blockchain_config_request api world params
  send Command.get_config params = config_request api world params
  send Command.get_account params = account_request api world params
  send Command.get_account_state params = account_state_request api world params
  send Command.set_states_gc_interval params = gc_interval_request api world params

  -- `command_send`, generated by the macro
  unfoldable pub command_send : String → List String → Io Event (Query api)
  command_send name params = elim (find_command name) [
    | some row ↦ send row.command params
    | none ↦ fail ("command " <> (name <> " not supported"))
  ]
