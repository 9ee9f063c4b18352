-- ===== src/Console/Client.antt =====
-- `ControlClient::process_command` of bin/console.rs, and the `receive`s that write files: a
-- command makes a request, sends it and reads the answer.
pub mod Trace
pub mod Quiet
pub mod Effects
pub mod Answers
use ever_node_tools.Prelude.{String, ◌<>◌, Option, none, some, List, get_elem?}
use ever_node_tools.Outcome.{ok_or}
use ever_node_tools.Io.{Io, pure, fail, lift, perform, map_err, ◌>>=◌, ◌>>◌}
use ever_node_tools.Rust.Word.{Bytes}
use ever_node_tools.Rust.Utf8.{as_bytes}
use ever_node_tools.Console.Outside.{Api, World, Event, send_query, write_file}
use ever_node_tools.Console.Command.{Command, find_command}
use ever_node_tools.Console.Send.{Query, command_send}
use ever_node_tools.Console.Receive.{
  Reply, downcast, both_codes, receive_stats, receive_session_stats, receive_key_hash,
  receive_public_key, receive_signature, receive_blockchain_config, receive_config, receive_success,
  account_info,
}

module _ (api : Api) (world : World api.Answer) where
  -- `std::fs::write`
  abbrev pub save : String → Bytes → Io Event (Unit {0})
  save path bytes = perform (write_file path bytes) (λ h. world.store h path bytes)

  abbrev pub create : String → Bytes → Io Event (Unit {0})
  create path bytes = map_err (λ e. "Can`t create file: " <> e) (save path bytes)

  abbrev pub create_if : Option String → Bytes → Io Event (Unit {0})
  create_if none bytes = pure tt
  create_if (some path) bytes = create path bytes

  -- The file name is the second parameter, and optional.
  unfoldable pub receive_account : api.Answer → List String → Io Event Reply
  receive_account answer params = do
    info ← lift (account_info api answer)
    create_if (get_elem? params 1) (as_bytes info)
    pure (info, as_bytes info)

  -- The file name is the second parameter, and required.
  unfoldable pub receive_account_state : api.Answer → List String → Io Event Reply
  receive_account_state answer params = do
    state ← lift (downcast api "ShardAccountState" api.as_shard_account_state answer)
    boc_name ← lift (ok_or "bad params (boc name not found)!" (get_elem? params 1))
    bytes ← lift (ok_or "account not found!" state)
    shard_account ← lift (api.shard_account_from_bytes bytes)
    account_state ← lift (api.write_boc (api.account_cell shard_account))
    create boc_name account_state
    pure (both_codes api account_state, account_state)

  unfoldable pub receive : Command → api.Answer → List String → Io Event Reply
  receive Command.get_stats answer params = lift (receive_stats api answer)
  receive Command.get_selected_stats answer params = lift (receive_stats api answer)
  receive Command.get_session_stats answer params = lift (receive_session_stats api answer)
  receive Command.new_keypair answer params = lift (receive_key_hash api answer)
  receive Command.export_pub answer params = lift (receive_public_key api answer)
  receive Command.sign answer params = lift (receive_signature api answer)
  receive Command.get_blockchain_config answer params = lift (receive_blockchain_config api answer)
  receive Command.get_config answer params = lift (receive_config api answer)
  receive Command.get_account answer params = receive_account answer params
  receive Command.get_account_state answer params = receive_account_state answer params
  receive _ answer params = lift (receive_success api answer)

  -- `command_receive`, generated by the macro
  unfoldable pub command_receive : String → api.Answer → List String → Io Event Reply
  command_receive name answer params = elim (find_command name) [
    | some row ↦ receive row.command answer params
    | none ↦ fail ("an error occured while receiving a response (command: " <> (name <> ")"))
  ]

  -- `self.adnl.query`
  abbrev pub ask : Bytes → Io Event api.Answer
  ask bytes = perform (send_query bytes) (λ h. world.answer h bytes)

  -- the `match` on the answer
  unfoldable pub read_answer : Query api → String → List String → api.Answer → Io Event Reply
  read_answer query name params answer = elim (api.as_control_query_error answer) [
    | some e ↦ fail ("Error response to " <> (api.debug_request query <> (": " <> e)))
    | none ↦
        map_err (λ e. "Wrong response to " <> (api.debug_request query <> (": " <> e)))
          (command_receive name answer params)
  ]

  unfoldable pub process_command : String → List String → Io Event Reply
  process_command name params = do
    query ← command_send api world name params
    bytes ← lift (api.serialize_request query)
    answer ← map_err (λ e. "Error receiving answer: " <> e) (ask bytes)
    read_answer query name params answer
