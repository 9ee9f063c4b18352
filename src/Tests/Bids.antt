-- ===== src/Tests/Bids.antt =====
-- A bid and a recovery in the example world.
use ever_node_tools.Prelude.{ℕ, String, ◌≡◌, ◌↔◌, refl, some, List, [], ◌∷◌}
use ever_node_tools.Prelude.Int.{pos}
use ever_node_tools.Outcome.{Outcome, ok, err}
use ever_node_tools.Rust.Word.{to_be_bytes, to_u32}
use ever_node_tools.Rust.Str.{trim_quotes}
use ever_node_tools.Rust.Print.{print_ℤ}
use ever_node_tools.Tests.Hex.{decode, encode_upper}
use ever_node_tools.Console.Bid.Laws.{IsChecked}
use ever_node_tools.Console.Bid.Accepts.{Times, check_bid_iff}
use ever_node_tools.Console.Outside.{Event}
use ever_node_tools.Console.Receive.{
  Reply, receive_key_hash, receive_public_key, receive_signature, receive_success,
}
use ever_node_tools.Console.Params.{parse_any, parse_int, parse_int256, parse_data, try_into_32}
use ever_node_tools.Console.Command.{find_command}
use ever_node_tools.Console.Send.{now, send, command_send}
use ever_node_tools.Console.Client.{receive, command_receive, read_answer, process_command}
use ever_node_tools.Console.Bid.{Bid, Config, parse_wallet, check_bid}
use ever_node_tools.Console.Message.{
  bytes_to_sign, signed_body, be_i32, Keys, recover_body, cell_of, signed_cell,
}
use ever_node_tools.Console.Election.{
  make_keys, sign_bid, write_body, write_bid, process_election_bid, process_recover_stake,
}
use ever_node_tools.Console.Election.Whole.{Conversation, process_election_bid_iff}
use ever_node_tools.Console.Election.Recover.{Recovered, recovered_text, process_recover_stake_iff}
use ever_node_tools.Tests.Node.{node, world, node-IsLawful, answer, repeat, encode}
use ever_node_tools.Tests.Node.{value}
use ever_node_tools.Console.Message.Unambiguous.{bytes_to_sign-injective}
use ever_node_tools.Prelude.{arith}

abbrev no_bid : Bid
no_bid = record { wallet_id = []; elect_time = pos 0; expire_time = pos 0; max_factor = 0 }

abbrev checked_value : Outcome Bid → Bid
checked_value (ok bid) = bid
checked_value _ = no_bid

abbrev config : Config ℕ
config = record {
  wallet_id = some "-1:af17db43f40b6aa24e7203a9f8c8652310c88c125062d1129fe883eaa1bd6763";
  max_factor = some 3;
}

abbrev bid_params : List String
bid_params = "1608205174" ∷ "1608205774" ∷ []

abbrev bid_run : Outcome Reply × List Event
bid_run = process_election_bid node world config bid_params []

bid_runs : bid_run ≡ (ok (value bid_run.0), bid_run.1)
unfolding process_election_bid check_bid parse_any parse_int parse_wallet make_keys sign_bid
    write_bid write_body now send command_send find_command process_command read_answer
    command_receive receive receive_key_hash receive_public_key receive_signature receive_success
    parse_int256 parse_data try_into_32 answer encode bytes_to_sign signed_body signed_cell cell_of
    trim_quotes decode encode_upper print_ℤ to_be_bytes be_i32 to_u32
bid_runs = refl

process_election_bid_iff_example :
    (bid_run ≡ (ok (value bid_run.0), bid_run.1))
    ↔ Conversation node world node-IsLawful config bid_params [] (value bid_run.0) bid_run.1
process_election_bid_iff_example =
    process_election_bid_iff node world node-IsLawful config bid_params [] (value bid_run.0)
      bid_run.1

-- All that the theorem asks of the node and the clock is given in the example world.
bid_answered :
    Conversation node world node-IsLawful config bid_params [] (value bid_run.0) bid_run.1
bid_answered = process_election_bid_iff_example.0 bid_runs

abbrev late_params : List String
late_params = "1608205174" ∷ "1608205174" ∷ []

late : check_bid node config late_params ≡ err "<expire-utime> must be a grater than elect_time"
unfolding check_bid parse_any parse_int parse_wallet trim_quotes decode
late = refl

abbrev bid : Bid
bid = checked_value (check_bid node config bid_params)

bid_checks : check_bid node config bid_params ≡ ok bid
unfolding check_bid parse_any parse_int parse_wallet trim_quotes decode
bid_checks = refl

check_bid_iff_example :
    (check_bid node config bid_params ≡ ok bid)
    ↔ (Times node bid_params bid × IsChecked node config bid)
check_bid_iff_example = check_bid_iff node config bid_params bid

abbrev keys : Keys
keys = record { perm = repeat 32 1; pub_key = repeat 32 2; adnl = repeat 32 3 }

abbrev recover_run : Outcome Reply × List Event
recover_run = process_recover_stake node world [] []

recover_runs : recover_run ≡ (ok (value recover_run.0), recover_run.1)
unfolding process_recover_stake write_body now recover_body cell_of to_be_bytes encode_upper
recover_runs = refl

process_recover_stake_iff_example : (recover_run ≡ (ok (value recover_run.0), recover_run.1)) ↔ (
    Recovered node world "recover-query.boc" [] (value recover_run.0) recover_run.1
    × ((value recover_run.0).0
        ≡ recovered_text node world "recover-query.boc" (value recover_run.0).1))
process_recover_stake_iff_example =
    process_recover_stake_iff node world [] [] (value recover_run.0) recover_run.1

abbrev small_bid : Bid
small_bid = record {
  wallet_id = repeat 32 9;
  elect_time = pos 1608205174;
  expire_time = pos 1608205774;
  max_factor = 196608;
}

abbrev later_bid : Bid
later_bid = record small_bid { expire_time = pos 1608209999 }

same_bytes : bytes_to_sign small_bid keys ≡ bytes_to_sign later_bid keys
unfolding bytes_to_sign
same_bytes = refl

bytes_to_sign-injective_example :
    (small_bid.elect_time ≡ later_bid.elect_time)
    × (small_bid.max_factor ≡ later_bid.max_factor)
    × (small_bid.wallet_id ≡ later_bid.wallet_id)
    × (keys.adnl ≡ keys.adnl)
bytes_to_sign-injective_example =
    bytes_to_sign-injective small_bid later_bid keys keys (omega arith, omega arith)
      (omega arith, omega arith) (omega arith) (omega arith) refl same_bytes
