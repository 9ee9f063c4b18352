-- ===== src/Zerostate/Api.antt =====
-- What bin/zerostate.rs calls of ton_block, ton_types and serde_json. A struct whose fields the
-- program sets is a record with those fields and one for the rest.
use ever_node_tools.Prelude.{ℕ, String, Bool, Option, List}
use ever_node_tools.Prelude.Int.{ℤ}
use ever_node_tools.Outcome.{Iteration, Result, outcome}
use ever_node_tools.Io.{Io, perform}
use ever_node_tools.Rust.Word.{Bytes}
use ever_node_tools.Json.{Json}

-- `WorkchainDescr`
pub record Descr (Other : Type 0) : Type 0 where
  pub zerostate_root_hash : Bytes
  pub zerostate_file_hash : Bytes
  pub other : Other

-- `ValidatorInfo`
pub record ValidatorInfo : Type 0 where
  pub validator_list_hash_short : ℕ
  pub catchain_seqno : ℕ
  pub nx_cc_updated : Bool

-- `McStateExtra`
pub record Extra (Config Other : Type 0) : Type 0 where
  pub config : Config
  pub validator_info : ValidatorInfo
  pub other : Other

pub record Api : Type 1 where
  -- reading the description
  pub Map : Type 0
  pub from_str : String → Result Map
  pub State : Type 0
  pub parse_state : Map → Result State
  -- states
  pub gen_time : State → ℕ
  pub set_gen_time : ℕ → State → State
  pub global_id : State → ℤ
  pub set_global_id : ℤ → State → State
  pub set_min_ref_mc_seqno : ℕ → State → State
  pub Shard : Type 0
  pub with_tagged_prefix : ℤ → ℕ → Result Shard
  -- `SHARD_FULL` and `MASTERCHAIN_ID`
  pub shard_full : ℕ
  pub masterchain_id : ℤ
  pub with_ident : Shard → State
  pub Config : Type 0
  pub ExtraOther : Type 0
  pub read_custom : State → Result (Option (Extra Config ExtraOther))
  pub write_custom : Option (Extra Config ExtraOther) → State → Result State
  -- the workchains, by their ids
  pub Workchains : Type 0
  pub DescrOther : Type 0
  pub workchains : Config → Result Workchains
  -- the entries that an iteration visits, and the error that it ends with, if any
  pub entries : Workchains → Iteration (ℤ × Descr DescrOther)
  pub set : ℤ → Descr DescrOther → Workchains → Result Workchains
  pub set_config_12 : Workchains → Config → Result Config
  -- validators
  pub Catchain : Type 0
  pub catchain_config : Config → Result Catchain
  pub Validators : Type 0
  pub validator_set : Config → Result Validators
  pub calc_subset : Validators → Catchain → ℕ → ℤ → ℕ → ℕ → Result (Validators × ℕ)
  -- cells and files
  pub Cell : Type 0
  pub serialize : State → Result Cell
  pub repr_hash : Cell → Bytes
  pub write_boc : Cell → Result Bytes
  pub calc_file_hash : Bytes → Bytes
  pub construct_from_bytes : Bytes → Result State
  -- the parameters of a configuration: a key and a value, as slices
  pub Slice : Type 0
  pub config_params : Config → Iteration (Slice × Slice)
  pub u32_from : Slice → Result ℕ
  pub checked_drain_reference : Slice → Result Cell
  pub Prices : Type 0
  pub storage_prices : Config → Result Prices
  pub prices_len : Prices → Result ℕ
  pub Price : Type 0
  pub price : ℕ → Prices → Result Price
  -- contracts
  pub StateInit : Type 0
  pub construct_from_file : String → Result StateInit
  pub code_of : StateInit → Option Cell
  pub data_of : StateInit → Option Cell
  pub update_config_smc_with_code : Option Cell → State → Result State
  pub update_elector_smc : Option Cell → Option Cell → State → Result State
  -- texts
  pub lower_hex : Bytes → String
  pub base64_encode : Bytes → String
  pub to_string_pretty : Json → Result String

-- What the program does outside: it writes files, of bytes or of a text, and prints lines.
pub data Event : Type 0 where
  write : String → Bytes → Event
  write_text : String → String → Event
  println : String → Event

-- The files that it reads, and the answer to a write, which may depend on what was written before.
pub record World : Type 0 where
  pub read_to_string : String → Result String
  pub write_answer : List Event → Event → Result (Unit {0})

-- `std::fs::write`
abbrev pub fs_write : World → Event → Io Event (Unit {0})
fs_write world event = perform event (λ h. outcome (world.write_answer h event))
