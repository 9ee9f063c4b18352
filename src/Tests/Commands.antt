-- ===== src/Tests/Commands.antt =====
-- Commands of the console, and their parameters, in the example world.
use ever_node_tools.Prelude.{◌^◌, ◌-◌, ◌≢◌, String, ◌≡◌, refl, some, List, [], ◌∷◌, arith}
use ever_node_tools.Prelude.Int.{ℤ, pos, negsuc}
use ever_node_tools.Outcome.{Outcome, ok}
use ever_node_tools.Rust.Str.{trim_quotes}
use ever_node_tools.Rust.Print.{print_ℤ}
use ever_node_tools.Rust.Word.{InRange, sub_i32, to_be_bytes, to_u32}
use ever_node_tools.Console.Outside.{
  Api, Event, send_query, read_clock, generate_key_pair, add_validator_temp_key, add_adnl_id,
}
use ever_node_tools.Console.Params.{parse_int, parse_int256}
use ever_node_tools.Console.Params.Laws.{parse_int-print_ℤ, parse_int256-encode_upper}
use ever_node_tools.Console.Receive.{Reply, receive_key_hash, receive_success}
use ever_node_tools.Console.Command.{Command, Row, find_command}
use ever_node_tools.Console.Send.{Query, now, send, command_send}
use ever_node_tools.Console.Send.Typed.{Fits, send-Fits}
use ever_node_tools.Console.Receive.{receive_stats}
use ever_node_tools.Prelude.{◌↔◌}
use ever_node_tools.Rust.Decimal.{Denotes}
use ever_node_tools.Console.Params.Decimal.{parse_int_iff}
use ever_node_tools.Console.Receive.Numbers.{integer_stat, number_field, receive_stats-print_ℤ}
use mathlib.Core.List.{map}
use ever_node_tools.Tests.Node.{Answer}
use ever_node_tools.Console.Client.Effects.{Leaves, receive-Leaves}
use ever_node_tools.Console.Client.{
  receive_account_state, receive, command_receive, read_answer, process_command,
}
use ever_node_tools.Console.Client.Trace.{
  IsQuiet, Answered, process_command_sends, process_command_iff,
}
use ever_node_tools.Console.Client.Quiet.{IsQuiet-unless_account}
use ever_node_tools.Tests.Hex.{codec, codec-IsHex, decode, encode_upper}
use ever_node_tools.Tests.Node.{node, world, answer, encode, hash, hash-IsHash}
use ever_node_tools.Tests.Node.{value}

-- `newkey` is no account command.
newkey_other :
    (row : Row)
    → find_command "newkey" ≡ some row
    → (row.command ≢ Command.get_account) × (row.command ≢ Command.get_account_state)
unfolding find_command
newkey_other row e = (λ same. cc, λ same. cc)

IsQuiet-unless_account_example : IsQuiet node world "newkey"
IsQuiet-unless_account_example = IsQuiet-unless_account node world "newkey" newkey_other

newkey_sends : command_send node world "newkey" [] [] ≡ (ok generate_key_pair, [])
unfolding command_send find_command send
newkey_sends = refl

process_command_sends_example :
    (process_command node world "newkey" [] []).1 ≡ send_query (1 ∷ []) ∷ []
unfolding encode
process_command_sends_example =
    process_command_sends node world "newkey" [] [] generate_key_pair IsQuiet-unless_account_example
      newkey_sends refl

abbrev newkey_run : Outcome Reply × List Event
newkey_run = process_command node world "newkey" [] []

newkey_runs : newkey_run.0 ≡ ok (value newkey_run.0)
unfolding process_command command_send find_command send encode answer read_answer command_receive
    receive receive_key_hash encode_upper
newkey_runs = refl

process_command_iff_example :
    (newkey_run.0 ≡ ok (value newkey_run.0))
    ↔ Answered node world "newkey" [] [] (value newkey_run.0)
process_command_iff_example = process_command_iff node world "newkey" [] [] (value newkey_run.0)

-- `addtempkey` is no account command.
addtempkey_other :
    (row : Row)
    → find_command "addtempkey" ≡ some row
    → (row.command ≢ Command.get_account) × (row.command ≢ Command.get_account_state)
unfolding find_command
addtempkey_other row e = (λ same. cc, λ same. cc)

abbrev temp_params : List String
temp_params = encode_upper (hash 4) ∷ encode_upper (hash 5) ∷ print_ℤ (pos 1608205774) ∷ []

abbrev temp_run : Outcome Reply × List Event
temp_run = process_command node world "addtempkey" temp_params []

temp_runs : temp_run.0 ≡ ok (value temp_run.0)
unfolding process_command command_send find_command send encode answer read_answer command_receive
    receive receive_success encode_upper parse_int256 parse_int trim_quotes decode print_ℤ now
    to_be_bytes to_u32
temp_runs = refl

abbrev temp_query : ℤ → Query node
temp_query t = add_validator_temp_key (hash 4) (hash 5) (sub_i32 (pos 1608205774) t)

abbrev adnl_params : List String
adnl_params = encode_upper (hash 4) ∷ "15" ∷ []

adnl_sends :
    send node world Command.add_adnl_addr adnl_params (read_clock ∷ [])
    ≡ (ok (add_adnl_id (hash 4) (pos 15)), read_clock ∷ [])
unfolding send encode_upper parse_int256 parse_int trim_quotes decode
adnl_sends = refl

send-Fits_example : Fits node world Command.add_adnl_addr (add_adnl_id (hash 4) (pos 15))
send-Fits_example =
    send-Fits node world Command.add_adnl_addr adnl_params (read_clock ∷ []) adnl_sends

abbrev two_stats : List (String × ℤ)
two_stats = ("timediff", negsuc 2) ∷ ("masterchainblocktime", pos 1608205174) ∷ []

-- the node, where it answers with these statistics
abbrev stats_node : Api
stats_node = record node { as_stats = λ given. some (map integer_stat two_stats) }

receive_stats-print_ℤ_example :
    receive_stats stats_node Answer.success
    ≡ ok (stats_node.pretty (stats_node.object (map (number_field stats_node) two_stats)), [])
receive_stats-print_ℤ_example =
    receive_stats-print_ℤ stats_node Answer.success [] two_stats refl refl (omega arith)

parse_int-print_ℤ_example :
    parse_int (some (print_ℤ (negsuc (2 ^ 31 - 1)))) "expire_at" ≡ ok (negsuc (2 ^ 31 - 1))
parse_int-print_ℤ_example =
    parse_int-print_ℤ (negsuc (2 ^ 31 - 1)) "expire_at" (omega arith, omega arith)

minus_42 : parse_int (some "-42") "expire_at" ≡ ok (negsuc 41)
unfolding parse_int trim_quotes
minus_42 = refl

parse_int_iff_example :
    (parse_int (some "\"-42\"") "expire_at" ≡ ok (negsuc 41))
    ↔ (Denotes (trim_quotes "\"-42\"") (negsuc 41) × InRange (2 ^ 31) (negsuc 41))
parse_int_iff_example = parse_int_iff "\"-42\"" "expire_at" (negsuc 41)

parse_int256-encode_upper_example :
    parse_int256 codec (some (encode_upper (hash 171))) "key_hash" ≡ ok (hash 171)
parse_int256-encode_upper_example =
    parse_int256-encode_upper codec codec-IsHex (hash 171) "key_hash" (hash-IsHash 171).0
      (hash-IsHash 171).1

hash_accepted : parse_int256 codec (some (encode_upper (hash 171))) "key_hash" ≡ ok (hash 171)
hash_accepted =
    parse_int256-encode_upper codec codec-IsHex (hash 171) "key_hash" (hash-IsHash 171).0
      (hash-IsHash 171).1

abbrev state_run : Outcome Reply × List Event
state_run =
    receive node world Command.get_account_state (Answer.account (some (1 ∷ 2 ∷ [])))
      ("-1:00" ∷ "account.boc" ∷ []) []

state_runs : state_run ≡ (ok (value state_run.0), state_run.1)
unfolding receive receive_account_state encode_upper
state_runs = refl

receive-Leaves_example :
    Leaves node world Command.get_account_state
      (Answer.account (some (1 ∷ 2 ∷ [])))
      ("-1:00" ∷ "account.boc" ∷ [])
      []
      (value state_run.0)
      state_run.1
receive-Leaves_example =
    receive-Leaves node world Command.get_account_state (Answer.account (some (1 ∷ 2 ∷ [])))
      ("-1:00" ∷ "account.boc" ∷ []) [] state_runs
