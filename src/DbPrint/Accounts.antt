-- ===== src/DbPrint/Accounts.antt =====
-- The accounts of the last applied state, which `main` of bin/print.rs prints as one JSON text, one
-- account after the other.
pub mod Text
pub mod Whole
use ever_node_tools.Prelude.{
  ℕ, String, Bool, true, false, Option, none, some, List, [], ◌∷◌, ◌++◌, if◌then◌else◌,
}
use ever_node_tools.Prelude.Int.{ℤ, pos}
use ever_node_tools.Outcome.{Outcome, expect_some, ok, err, panic, ok_or, Result, outcome}
use ever_node_tools.Outcome
use ever_node_tools.Io.{Io, pure, lift, ◌>>=◌, ◌>>◌}
use ever_node_tools.Json.{Json, str, num, obj, Fields, end, field}
use ever_node_tools.Rust.Print.{print_ℕ}
use ever_node_tools.DbPrint.Db.{Api, World, Iteration, ended, print, print_line}

-- `Option::unwrap`
abbrev pub unwrap : {A : Type 0} → Option A → Outcome A
unwrap = expect_some "called `Option::unwrap()` on a `None` value"

-- `unwrap_or_default`
abbrev or_zero : Option ℕ → ℕ
or_zero none = 0
or_zero (some n) = n

-- other currencies, by their number
unfoldable pub other_fields : List (ℕ × String) → Fields
other_fields [] = end
other_fields ((k, value) ∷ other) = field (print_ℕ k) (str value) (other_fields other)

module _ (api : Api) where
  -- the last field, which is there only if there are other currencies
  unfoldable pub other_field : api.Balance → Outcome Fields
  unfolding other_fields
  other_field balance =
      let read =
        Outcome.◌>>=◌ (outcome (api.other balance))
          λ other. ok (field "balance_other" (obj (other_fields other)) end) in
      if api.no_other balance then ok end else read

  -- `acc`, with the last field if it is there
  unfoldable pub acc : api.Account → String → api.Balance → ℕ → Fields → Json
  acc account addr balance last_paid other = obj (
      field "id" (str addr) (
        field "last_paid" (num (pos last_paid)) (
          field "last_trans_lt" (num (pos (or_zero (api.last_tr_time account))))
            (field "balance" (num (pos (api.grams balance))) other))))

  -- what is printed of an account
  unfoldable pub account_json : api.ShardAccount → Outcome Json
  unfolding other_field acc
  account_json shard_account = Outcome.◌>>=◌ (outcome (api.read_account shard_account)) λ account.
      Outcome.◌>>=◌ (unwrap (api.address account)) λ addr.
        Outcome.◌>>=◌ (unwrap (api.balance account)) λ balance.
          Outcome.◌>>=◌ (unwrap (api.last_paid account)) λ last_paid.
            Outcome.◌>>=◌ (other_field balance)
              λ other. ok (acc account addr balance last_paid other)

  -- what the callback prints; its argument and result are `first`
  unfoldable pub visit : Bool → api.ShardAccount → Io String Bool
  unfolding account_json
  visit first shard_account = do
    acc ← lift (account_json shard_account)
    (if first then pure tt else print_line ",")
    print (api.pretty acc)
    pure false

  unfoldable pub visit_all : Bool → List api.ShardAccount → Io String Bool
  unfolding visit
  visit_all first [] = pure first
  visit_all first (shard_account ∷ other) = do
    first' ← visit first shard_account
    visit_all first' other

module _ (api : Api) (world : World api) (db : world.Db) where
  -- the accounts of a block's state
  unfoldable pub read_accounts : api.BlockId → Outcome (Iteration api.ShardAccount)
  read_accounts block_id =
      Outcome.◌>>=◌ (outcome (world.load_shard_state_dynamic db block_id))
        λ stuff. Outcome.◌>>=◌ (outcome (world.state stuff)) λ state. outcome (api.accounts state)

  unfoldable pub print_blocks : Bool → List api.BlockId → Io String Bool
  unfolding read_accounts visit_all
  print_blocks first [] = pure first
  print_blocks first (block_id ∷ other) = do
    (accounts, last) ← lift (read_accounts block_id)
    first' ← visit_all api first accounts
    lift (ended last)
    print_blocks first' other

  -- the last applied masterchain block comes after the blocks on top of its shards
  unfoldable pub print_accounts : Io String (Unit {0})
  unfolding print_blocks
  print_accounts = do
    found ← lift (outcome (world.last_applied db))
    last_mc_id ← lift (ok_or "no info about last applied mc block" found)
    print_line "{\"accounts\":["
    last_mc_state ← lift (outcome (world.load_shard_state_dynamic db last_mc_id))
    top_blocks ← lift (outcome (world.top_blocks_all last_mc_state))
    _ ← print_blocks true (top_blocks ++ last_mc_id ∷ [])
    print_line "]}"
