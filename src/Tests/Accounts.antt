-- ===== src/Tests/Accounts.antt =====
-- A database with two accounts in two blocks, printed.
use ever_node_tools.Prelude.{
  if◌then◌else◌, str_eq, ℕ, String, ◌<>◌, true, ◌≡◌, refl, inr, none, some, List, [], ◌∷◌,
}
use ever_node_tools.Outcome.{ok, err, panic}
use ever_node_tools.Io.Calm.{IsCalmIo}
use ever_node_tools.Json.{Json}
use ever_node_tools.DbPrint.Db.{Api, World}
use ever_node_tools.DbPrint.Accounts.{print_accounts, account_json, other_field, read_accounts}
use ever_node_tools.DbPrint.Accounts.Text.{separated, written}
use ever_node_tools.DbPrint.Accounts.Whole.{all_json, gather, document, print_accounts_lem}
use ever_node_tools.DbPrint.Main.{main}
use ever_node_tools.Clap.{Matches}
use ever_node_tools.DbPrint.Main.Laws.{main-IsCalmIo}

-- accounts are their balances, and blocks and states numbers
abbrev db_api : Api
db_api = record {
  Block = ℕ;
  block_from_bytes = λ bytes. none;
  debug_block = λ block. inr "block";
  debug_block_full = λ block. inr "full block";
  State = ℕ;
  state_from_bytes = λ bytes. some 1;
  debug_state = λ state. inr "state";
  debug_state_full = λ state. inr "full state";
  BlockId = ℕ;
  block_id_from_str = λ text. none;
  block_id_text = λ id. "block";
  Shard = ℕ;
  before_merge = λ shard. "false";
  shard_block_id = λ shard. shard;
  ShardAccount = ℕ;
  accounts = λ state. inr (state ∷ [], none);
  Account = ℕ;
  read_account = inr;
  address = λ account. some "address";
  last_paid = λ account. some 7;
  last_tr_time = λ account. none;
  Balance = ℕ;
  balance = some;
  grams = λ balance. balance;
  no_other = λ balance. true;
  other = λ balance. inr [];
  pretty = λ json. "{}";
}

abbrev database : World db_api
database = record {
  file = λ path. inr [];
  Db = Unit;
  with_update = λ path. inr tt;
  Handle = ℕ;
  load_block_handle = λ db id. inr (some id);
  BlockStuff = ℕ;
  load_block_data = λ db handle. inr handle;
  block = inr;
  StateStuff = ℕ;
  load_shard_state_dynamic = λ db id. inr id;
  state = inr;
  shards = λ stuff. some (stuff ∷ [], none);
  find_mc_block_by_seq_no = λ db seqno. inr seqno;
  handle_id = λ handle. handle;
  last_applied = λ db. inr (some 5);
  top_blocks_all = λ stuff. inr (3 ∷ []);
}

abbrev two : List Json
two = elim (document db_api database tt) [ ok jsons ↦ jsons | err e ↦ [] | panic e ↦ [] ]

document_found : document db_api database tt ≡ ok two
unfolding document gather all_json read_accounts account_json other_field
document_found = refl

print_accounts_lem_example :
    (g : List String) × (print_accounts db_api database tt [] ≡ (ok tt, g))
    × (written g ≡ "" <> ("{\"accounts\":[\n" <> (separated db_api two <> "]}\n")))
print_accounts_lem_example = print_accounts_lem db_api database tt [] two document_found

-- clap's answer to `-b 12 -s "(-1:8000000000000000,12)" -i`
abbrev args : Matches
args = record {
  value_of = λ name.
      if str_eq name "PATH"
      then some "node_db"
      else if str_eq name "BLOCK"
      then some "12"
      else if str_eq name "STATE"
      then some "(-1:8000000000000000,12)"
      else none;
  values_of = λ name. none;
  is_present = λ name. str_eq name "BRIEF";
}

main-IsCalmIo_example : IsCalmIo (main db_api database args)
main-IsCalmIo_example = main-IsCalmIo db_api database args refl
