-- ===== src/Console/Client/Quiet.antt =====
-- Which commands of bin/console.rs write files when they read their answer.
use ever_node_tools.Prelude.{String, ◌≡◌, ◌≢◌, refl, some, List, inl, inr, Option-cases}
use ever_node_tools.Console.Outside.{Api, World, Event}
use ever_node_tools.Console.Command.{Command, Row, find_command}
use ever_node_tools.Console.Client.{receive, command_receive}
use ever_node_tools.Console.Client.Trace.{IsQuiet}

module _ (api : Api) (world : World api.Answer) where
  receive_quiet :
      (command : Command) (answer : api.Answer) (params : List String) (h : List Event)
      → command ≢ Command.get_account
      → command ≢ Command.get_account_state
      → (receive api world command answer params h).1 ≡ h
  unfolding receive
  receive_quiet Command.get_account answer params h a b = elim (a refl) [ ]
  receive_quiet Command.get_account_state answer params h a b = elim (b refl) [ ]
  receive_quiet Command.add_adnl_addr answer params h a b = refl
  receive_quiet Command.add_validator_adnl_addr answer params h a b = refl
  receive_quiet Command.add_validator_perm_key answer params h a b = refl
  receive_quiet Command.add_validator_temp_key answer params h a b = refl
  receive_quiet Command.bundle answer params h a b = refl
  receive_quiet Command.export_pub answer params h a b = refl
  receive_quiet Command.future_bundle answer params h a b = refl
  receive_quiet Command.get_blockchain_config answer params h a b = refl
  receive_quiet Command.get_config answer params h a b = refl
  receive_quiet Command.get_session_stats answer params h a b = refl
  receive_quiet Command.get_selected_stats answer params h a b = refl
  receive_quiet Command.get_stats answer params h a b = refl
  receive_quiet Command.new_keypair answer params h a b = refl
  receive_quiet Command.send_message answer params h a b = refl
  receive_quiet Command.set_states_gc_interval answer params h a b = refl
  receive_quiet Command.sign answer params h a b = refl

  -- A name that is not one of the two account commands, known or unknown, reads its answer without
  -- an effect outside, whatever the answer is.
  pub IsQuiet-unless_account :
      (name : String)
      → ((row : Row)
          → find_command name ≡ some row
          → (row.command ≢ Command.get_account) × (row.command ≢ Command.get_account_state))
      → IsQuiet api world name
  unfolding command_receive
  IsQuiet-unless_account name other answer params h = elim (Option-cases (find_command name)) [
    | inl unknown ↦ rw (unknown, command_receive)
    | inr (row, known) ↦
        rw (known, command_receive)
          (receive_quiet row.command answer params h (other row known).0 (other row known).1)
  ]
