-- ===== src/Console/Send/Requests.antt =====
-- `send` of each command in bin/console.rs: from the parameters to the request. `params.next()`
-- called for the n-th time is the n-th parameter, counted from 0, or none past the last.
use ever_node_tools.Prelude.{
  ℕ, String, ◌<>◌, ◌||◌, Option, none, some, List, [], ◌∷◌, get_elem?, if◌then◌else◌,
}
use ever_node_tools.Prelude.Int.{ℤ, pos, ltb_ℤ}
use ever_node_tools.Outcome.{Outcome, ok, err, panic, ok_or}
use ever_node_tools.Io.{Io, pure, fail, lift, perform, map_err, ◌>>=◌}
use ever_node_tools.Rust.Word.{Bytes, sub_i32, as_i32}
use ever_node_tools.Console.Outside.{Api, World, Event, read_clock, read_file}
use ever_node_tools.Console.Outside.{Request, get_stats, get_selected_stats, get_session_stats}
use ever_node_tools.Console.Outside.{
  generate_key_pair, export_public_key, add_validator_permanent_key, add_validator_temp_key,
  add_validator_adnl_address, add_adnl_id, get_bundle, get_future_bundle, get_config_all,
  get_config_params, get_shard_account_state,
}
use ever_node_tools.Console.Params.{
  insufficient, parse_int, parse_data, parse_int256, parse_blockid,
}

-- the panic of `unwrap` at a clock before 1970
abbrev pub before_epoch : String
before_epoch = "called `Result::unwrap()` on an `Err` value"

abbrev pub Query : Api → Type 0
Query api = Request api.BlockId api.Interval

module _ (api : Api) (world : World api.Answer) where
  -- `as_secs() as ton::int`
  abbrev pub seconds : Option ℕ → Outcome ℤ
  seconds none = panic before_epoch
  seconds (some t) = ok (as_i32 t)

  unfoldable pub now : Io Event ℤ
  unfolding as_i32
  now = perform read_clock (λ h. seconds (world.unix_time h))

  abbrev pub read : String → Io Event Bytes
  read path = perform (read_file path) (λ h. world.contents h path)

  -- the second block id of a future bundle counts only if it can be read
  abbrev pub with_second : api.BlockId → Outcome api.BlockId → Outcome (List api.BlockId)
  with_second first (ok second) = ok (first ∷ second ∷ [])
  with_second first (err e) = ok (first ∷ [])
  with_second first (panic e) = panic e

  abbrev pub export_pub_request : List String → Io Event (Query api)
  export_pub_request params = do
    key_hash ← lift (parse_int256 api.codec (get_elem? params 0) "key_hash")
    pure (export_public_key key_hash)

  abbrev pub sign_request : List String → Io Event (Query api)
  sign_request params = do
    key_hash ← lift (parse_int256 api.codec (get_elem? params 0) "key_hash")
    bytes ← lift (parse_data api.codec (get_elem? params 1) "data")
    pure (Request.sign key_hash bytes)

  abbrev pub perm_key_request : List String → Io Event (Query api)
  perm_key_request params = do
    key_hash ← lift (parse_int256 api.codec (get_elem? params 0) "key_hash")
    election_date ← lift (parse_int (get_elem? params 1) "election_date")
    expire_at ← lift (parse_int (get_elem? params 2) "expire_at")
    pure (add_validator_permanent_key key_hash election_date (sub_i32 expire_at election_date))

  abbrev pub temp_key_request : List String → Io Event (Query api)
  temp_key_request params = do
    permanent_key_hash ← lift (parse_int256 api.codec (get_elem? params 0) "permanent_key_hash")
    key_hash ← lift (parse_int256 api.codec (get_elem? params 1) "key_hash")
    expire_at ← lift (parse_int (get_elem? params 2) "expire_at")
    time ← now
    pure (add_validator_temp_key permanent_key_hash key_hash (sub_i32 expire_at time))

  abbrev pub validator_addr_request : List String → Io Event (Query api)
  validator_addr_request params = do
    permanent_key_hash ← lift (parse_int256 api.codec (get_elem? params 0) "permanent_key_hash")
    key_hash ← lift (parse_int256 api.codec (get_elem? params 1) "key_hash")
    expire_at ← lift (parse_int (get_elem? params 2) "expire_at")
    time ← now
    pure (add_validator_adnl_address permanent_key_hash key_hash (sub_i32 expire_at time))

  abbrev pub adnl_addr_request : List String → Io Event (Query api)
  adnl_addr_request params = do
    key_hash ← lift (parse_int256 api.codec (get_elem? params 0) "key_hash")
    category ← lift (parse_int (get_elem? params 1) "category")
    if ltb_ℤ category (pos 0) || ltb_ℤ (pos 15) category
        then fail "category must be not negative and less than 16"
        else pure (add_adnl_id key_hash category)

  abbrev pub bundle_request : List String → Io Event (Query api)
  bundle_request params = do
    block_id ← lift (parse_blockid api (get_elem? params 0) "block_id")
    pure (get_bundle block_id)

  abbrev pub future_bundle_request : List String → Io Event (Query api)
  future_bundle_request params = do
    first ← lift (parse_blockid api (get_elem? params 0) "block_id")
    prev_block_ids ← lift (with_second first (parse_blockid api (get_elem? params 1) "block_id"))
    pure (get_future_bundle prev_block_ids)

  abbrev pub message_request : List String → Io Event (Query api)
  message_request params = do
    filename ← lift (ok_or insufficient (get_elem? params 0))
    body ←
        map_err (λ e. "Can't read file " <> (filename <> (" with message: " <> e))) (read filename)
    pure (Request.send_message body)

  abbrev pub config_request : List String → Io Event (Query api)
  config_request params = do
    param_number ← lift (parse_int (get_elem? params 0) "paramnumber")
    pure (get_config_params 0 api.default_block_id (param_number ∷ []))

  abbrev pub account_request : List String → Io Event (Query api)
  account_request params = do
    account_address ← lift (ok_or insufficient (get_elem? params 0))
    pure (get_shard_account_state account_address)

  abbrev pub account_state_request : List String → Io Event (Query api)
  account_state_request params = do
    account_address ← lift (ok_or insufficient (get_elem? params 0))
    pure (get_shard_account_state account_address)

  abbrev pub gc_interval_request : List String → Io Event (Query api)
  gc_interval_request params = do
    text ← lift (ok_or insufficient (get_elem? params 0))
    interval_ms ←
        map_err (λ e. "can't parse <milliseconds>: " <> e) (lift (api.interval_from_str text))
    pure (Request.set_states_gc_interval interval_ms)

  abbrev pub stats_request : List String → Io Event (Query api)
  stats_request params = pure get_stats

  abbrev pub selected_stats_request : List String → Io Event (Query api)
  selected_stats_request params = pure (get_selected_stats "*")

  abbrev pub session_stats_request : List String → Io Event (Query api)
  session_stats_request params = pure get_session_stats

  abbrev pub keypair_request : List String → Io Event (Query api)
  keypair_request params = pure generate_key_pair

  abbrev pub blockchain_config_request : List String → Io Event (Query api)
  blockchain_config_request params = pure (get_config_all 0 api.default_block_id)
