-- ===== src/Console/Receive.antt =====
-- `receive` of every command in bin/console.rs: from the node's answer to the text that is printed
-- and the bytes that other commands use.
pub mod Numbers
pub mod Given
use ever_node_tools.Prelude.{
  ℕ, ◌^◌, String, ◌<>◌, str_eq, Option, none, some, List, [], if◌then◌else◌,
}
use mathlib.Core.List.{map}
use ever_node_tools.Prelude.Int.{ℤ}
use ever_node_tools.Outcome.{Outcome, ok, ok_or, ◌>>=◌}
use ever_node_tools.Rust.Str.{trim_quotes}
use ever_node_tools.Rust.Word.{Bytes}
use ever_node_tools.Rust.Parse.{parse_signed}
use ever_node_tools.Rust.Print.{print_ℕ, print_hex}
use ever_node_tools.Rust.Utf8.{from_utf8}
use ever_node_tools.Console.Outside.{Api, OneStat, AccountStatus, uninit, frozen, active, nonexist}

-- The text for the terminal, and the bytes.
abbrev pub Reply : Type 0
Reply = String × Bytes

abbrev account_type : AccountStatus → String
account_type uninit = "Uninit"
account_type frozen = "Frozen"
account_type active = "Active"
account_type nonexist = "Nonexist"

abbrev or_zero : Option ℕ → ℕ
or_zero none = 0
or_zero (some n) = n

module _ (api : Api) where
  -- `downcast::<T>()`, where `T` is the type whose name is given
  abbrev pub downcast : {A : Type 0} → String → (api.Answer → Option A) → api.Answer → Outcome A
  downcast name as_type answer =
      ok_or ("Wrong downcast " <> (api.debug_answer answer <> (" to " <> name))) (as_type answer)

  abbrev json_or_string : String → Option api.Json → api.Json
  json_or_string text (some value) = value
  json_or_string text none = api.string (trim_quotes text)

  abbrev number_or_json : String → Outcome ℤ → api.Json
  number_or_json text (ok n) = api.number n
  number_or_json text _ = json_or_string text (api.json_from_str text)

  -- the value of one statistic: null, a number, any JSON, or else a string
  unfoldable pub stat_value : String → api.Json
  stat_value text =
      if str_eq text "" then api.null else number_or_json text (parse_signed (2 ^ 63) text)

  unfoldable pub stats_to_json : List OneStat → api.Json
  unfolding stat_value
  stats_to_json stats = api.object (map (λ stat. (stat.key, stat_value stat.value)) stats)

  -- `receive` of `GetStats` and of `GetSelectedStats`
  unfoldable pub receive_stats : api.Answer → Outcome Reply
  unfolding stats_to_json
  receive_stats answer = do
    bytes ← api.serialize_answer answer
    stats ← downcast "Stats" api.as_stats answer
    ok (api.pretty (stats_to_json stats), bytes)

  unfoldable pub receive_session_stats : api.Answer → Outcome Reply
  unfolding stats_to_json
  receive_session_stats answer = do
    bytes ← api.serialize_answer answer
    sessions ← downcast "SessionStats" api.as_session_stats answer
    ok (api.pretty (api.object (map (λ s. (s.session_id, stats_to_json s.stats)) sessions)), bytes)

  -- hex and base64, as several replies show bytes
  abbrev pub both_codes : Bytes → String
  both_codes bytes = api.hex_encode bytes <> (" " <> api.base64_encode bytes)

  unfoldable pub receive_key_hash : api.Answer → Outcome Reply
  receive_key_hash answer = do
    key_hash ← downcast "KeyHash" api.as_key_hash answer
    ok ("received public key hash: " <> both_codes key_hash, key_hash)

  unfoldable pub receive_public_key : api.Answer → Outcome Reply
  receive_public_key answer = do
    key ← downcast "PublicKey" api.as_public_key answer
    pub_key ← ok_or "Public key not found in answer!" key
    ok ("imported key: " <> both_codes pub_key, pub_key)

  unfoldable pub receive_signature : api.Answer → Outcome Reply
  receive_signature answer = do
    signature ← downcast "Signature" api.as_signature answer
    ok ("got signature: " <> both_codes signature, signature)

  unfoldable pub receive_blockchain_config : api.Answer → Outcome Reply
  receive_blockchain_config answer = do
    config_proof ← downcast "ConfigInfo" api.as_config_info answer
    ok (api.hex_encode config_proof, config_proof)

  -- The text of the error says at which byte the decoding stopped; here it is shorter.
  unfoldable pub receive_config : api.Answer → Outcome Reply
  receive_config answer = do
    config_proof ← downcast "ConfigInfo" api.as_config_info answer
    text ← ok_or "invalid utf-8 sequence" (from_utf8 config_proof)
    ok (text, config_proof)

  -- the default `receive`
  unfoldable pub receive_success : api.Answer → Outcome Reply
  receive_success answer = do _ ← downcast "Success" api.as_success answer; ok ("success", [])

  -- the fields of an account that exists, from its type on
  account_fields : api.ShardAccount → api.Account → Bytes → String
  account_fields shard_account account boc =
      account_type (api.status account)
      <> ("\",\n\"balance\":\t"
          <> (print_ℕ (or_zero (api.balance account))
              <> (",\n\"last_paid\":\t"
                  <> (print_ℕ (api.last_paid account)
                      <> (",\n\"last_trans_lt\":\t\""
                          <> (print_hex (api.last_trans_lt shard_account)
                              <> ("\",\n\"data(boc)\":\t\"" <> api.hex_encode boc)))))))

  account_text : Option Bytes → Outcome String
  unfolding account_fields
  account_text none = ok "Nonexist"
  account_text (some bytes) = do
    shard_account ← api.shard_account_from_bytes bytes
    account ← api.read_account shard_account
    boc ← api.write_boc (api.account_cell shard_account)
    ok (account_fields shard_account account boc)

  unfoldable pub account_info : api.Answer → Outcome String
  unfolding account_text
  account_info answer = do
    state ← downcast "ShardAccountState" api.as_shard_account_state answer
    text ← account_text state
    ok ("{\n\"acc_type\":\t\"" <> (text <> "\"\n}"))
