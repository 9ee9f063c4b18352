-- ===== src/Console/Outside.antt =====
-- What bin/console.rs calls and does not implement, as records of operations: the hex and base64
-- codecs, the TL objects and cells of the node's libraries, JSON, and the world with its clock, its
-- files and the node that answers. The requests are the TL objects which the source builds.
use ever_node_tools.Prelude.{ℕ, ◌*◌, ◌<◌, String, len, ◌≡◌, Bool, Option, some, List, length, All}
use ever_node_tools.Prelude.Int.{ℤ}
use ever_node_tools.Outcome.{Outcome, ok}
use ever_node_tools.Rust.Word.{Bytes}
use ever_node_tools.Rust.Str.{is_quote, Lacks}

-- The crates hex and base64.
pub record Codec : Type 0 where
  pub hex_decode : String → Outcome Bytes
  pub hex_encode : Bytes → String
  pub hex_encode_upper : Bytes → String
  pub base64_decode : String → Outcome Bytes
  pub base64_encode : Bytes → String

abbrev pub AreBytes : Bytes → Type 0
AreBytes = All (λ b. b < 256)

-- What the crate hex documents of `encode_upper` and `decode`: two digits for each byte, and
-- decoding gives the bytes back.
pub record IsHex (c : Codec) : Type 0 where
  pub decode-encode_upper :
      (bytes : Bytes) → AreBytes bytes → c.hex_decode (c.hex_encode_upper bytes) ≡ ok bytes
  pub len-encode_upper :
      (bytes : Bytes) → AreBytes bytes → len (c.hex_encode_upper bytes) ≡ 2 * length bytes
  pub decode-AreBytes :
      (text : String) (bytes : Bytes) → c.hex_decode text ≡ ok bytes → AreBytes bytes
  pub encode_upper-Lacks_quote :
      (bytes : Bytes) → AreBytes bytes → Lacks is_quote (c.hex_encode_upper bytes)

-- The requests to the control server, with the fields that the source gives.
pub data Request (BlockId Interval : Type 0) : Type 0 where
  get_stats : Request BlockId Interval
  get_selected_stats : String → Request BlockId Interval
  get_session_stats : Request BlockId Interval
  generate_key_pair : Request BlockId Interval
  export_public_key : Bytes → Request BlockId Interval
  sign : Bytes → Bytes → Request BlockId Interval
  add_validator_permanent_key : Bytes → ℤ → ℤ → Request BlockId Interval
  add_validator_temp_key : Bytes → Bytes → ℤ → Request BlockId Interval
  add_validator_adnl_address : Bytes → Bytes → ℤ → Request BlockId Interval
  add_adnl_id : Bytes → ℤ → Request BlockId Interval
  get_bundle : BlockId → Request BlockId Interval
  get_future_bundle : List BlockId → Request BlockId Interval
  send_message : Bytes → Request BlockId Interval
  get_config_all : ℕ → BlockId → Request BlockId Interval
  get_config_params : ℕ → BlockId → List ℤ → Request BlockId Interval
  get_shard_account_state : String → Request BlockId Interval
  set_states_gc_interval : Interval → Request BlockId Interval

-- `AccountStatus` of ton_block
pub data AccountStatus : Type 0 where
  uninit frozen active nonexist : AccountStatus

pub record OneStat : Type 0 where
  pub key : String
  pub value : String

pub record SessionStat : Type 0 where
  pub session_id : String
  pub stats : List OneStat

-- What the process does outside, in the order in which it does it.
pub data Event : Type 0 where
  read_clock : Event
  read_line : Event
  read_file : String → Event
  write_file : String → Bytes → Event
  send_query : Bytes → Event
  -- for a number of nanoseconds
  sleep : ℕ → Event
  print : String → Event

-- The libraries of the node: block ids, TL objects and their downcasts, accounts, JSON.
pub record Api : Type 1 where
  pub codec : Codec
  pub open codec use *
  pub BlockId : Type 0
  pub default_block_id : BlockId
  pub block_id_from_str : String → Outcome BlockId
  pub Interval : Type 0
  pub interval_from_str : String → Outcome Interval
  pub serialize_request : Request BlockId Interval → Outcome Bytes
  pub debug_request : Request BlockId Interval → String
  pub Answer : Type 0
  pub serialize_answer : Answer → Outcome Bytes
  pub debug_answer : Answer → String
  -- `downcast::<T>()`, with the fields that the source reads
  pub as_control_query_error : Answer → Option String
  pub as_success : Answer → Option (Unit {0})
  pub as_stats : Answer → Option (List OneStat)
  pub as_session_stats : Answer → Option (List SessionStat)
  pub as_key_hash : Answer → Option Bytes
  pub as_public_key : Answer → Option (Option Bytes)
  pub as_signature : Answer → Option Bytes
  pub as_config_info : Answer → Option Bytes
  pub as_shard_account_state : Answer → Option (Option Bytes)
  -- cells and accounts
  pub Cell : Type 0
  pub write_boc : Cell → Outcome Bytes
  pub Builder : Type 0
  pub with_raw : Bytes → ℕ → Outcome Builder
  pub into_cell : Builder → Outcome Cell
  pub append_reference : Builder → Cell → Outcome Builder
  pub ShardAccount : Type 0
  pub shard_account_from_bytes : Bytes → Outcome ShardAccount
  pub account_cell : ShardAccount → Cell
  pub last_trans_lt : ShardAccount → ℕ
  pub Account : Type 0
  pub read_account : ShardAccount → Outcome Account
  pub status : Account → AccountStatus
  pub balance : Account → Option ℕ
  pub last_paid : Account → ℕ
  -- Ed25519 verification: public key, message, signature
  pub verify : Bytes → Bytes → Bytes → Outcome (Unit {0})
  -- `f32`, which the language implements
  pub F32 : Type 0
  pub f32 : ℕ → F32
  pub f32_lt : F32 → F32 → Bool
  pub f32_mul : F32 → F32 → F32
  pub f32_as_u32 : F32 → ℕ
  -- JSON values; `object` collects the pairs into a map
  pub Json : Type 0
  pub null : Json
  pub number : ℤ → Json
  pub string : String → Json
  pub object : List (String × Json) → Json
  pub json_from_str : String → Option Json
  pub pretty : Json → String

-- A key hash, and any other 32 bytes.
abbrev pub IsHash : Bytes → Type 0
IsHash bytes = AreBytes bytes × (length bytes ≡ 32)

-- What the console relies on: the hex crate, that every request can be serialized, and that a key
-- hash of the node has 32 bytes.
pub record IsLawful (api : Api) : Type 0 where
  pub hex : IsHex api.codec
  pub encode : Request api.BlockId api.Interval → Bytes
  pub encodes :
      (query : Request api.BlockId api.Interval) → api.serialize_request query ≡ ok (encode query)
  pub key_hash-IsHash :
      (answer : api.Answer) (hash : Bytes) → api.as_key_hash answer ≡ some hash → IsHash hash

-- The world around the process. Every answer may depend on all that the process has done.
pub record World (Answer : Type 0) : Type 0 where
  -- seconds since the Unix epoch, `none` before it
  pub unix_time : List Event → Option ℕ
  pub contents : List Event → String → Outcome Bytes
  pub store : List Event → String → Bytes → Outcome (Unit {0})
  pub answer : List Event → Bytes → Outcome Answer
