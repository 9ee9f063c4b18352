-- ===== src/DbPrint/Db.antt =====
-- What bin/print.rs calls of ton_block, ton_block_json and the database. The program changes neither
-- the database nor the files, so that what they hold is a parameter. What happens outside is the
-- output, as the texts that are written, newest first.
use ever_node_tools.Prelude.{
  ℕ, ◌-◌, ◌^◌, String, ◌<>◌, Bool, true, false, Option, none, some, List, [], ◌∷◌,
}
use ever_node_tools.Outcome.{Outcome, ok, err, ok_or, Result, outcome}
pub use ever_node_tools.Outcome.{Iteration, ended}
use ever_node_tools.Outcome
use ever_node_tools.Io.{Io, pure, lift, perform, ◌>>=◌, ◌>>◌}
use ever_node_tools.Rust.Word.{Bytes}
use ever_node_tools.Rust.Parse.{parse_unsigned}
use ever_node_tools.Json.{Json}

pub record Api : Type 1 where
  pub Block : Type 0
  pub block_from_bytes : Bytes → Option Block
  pub debug_block : Block → Result String
  pub debug_block_full : Block → Result String
  pub State : Type 0
  pub state_from_bytes : Bytes → Option State
  pub debug_state : State → Result String
  pub debug_state_full : State → Result String
  pub BlockId : Type 0
  pub block_id_from_str : String → Option BlockId
  pub block_id_text : BlockId → String
  -- a shard of a masterchain state: `before_merge` and its block
  pub Shard : Type 0
  pub before_merge : Shard → String
  pub shard_block_id : Shard → BlockId
  -- accounts
  pub ShardAccount : Type 0
  pub accounts : State → Result (Iteration ShardAccount)
  pub Account : Type 0
  pub read_account : ShardAccount → Result Account
  pub address : Account → Option String
  pub last_paid : Account → Option ℕ
  pub last_tr_time : Account → Option ℕ
  pub Balance : Type 0
  pub balance : Account → Option Balance
  pub grams : Balance → ℕ
  pub no_other : Balance → Bool
  pub other : Balance → Result (List (ℕ × String))
  -- `{:#}`
  pub pretty : Json → String

-- The files and the database.
pub record World (api : Api) : Type 1 where
  pub file : String → Result Bytes
  pub Db : Type 0
  pub with_update : String → Result Db
  pub Handle : Type 0
  pub load_block_handle : Db → api.BlockId → Result (Option Handle)
  -- a block and a state as they are loaded, and what they hold
  pub BlockStuff : Type 0
  pub load_block_data : Db → Handle → Result BlockStuff
  pub block : BlockStuff → Result api.Block
  pub StateStuff : Type 0
  pub load_shard_state_dynamic : Db → api.BlockId → Result StateStuff
  pub state : StateStuff → Result api.State
  pub shards : StateStuff → Option (Iteration api.Shard)
  pub find_mc_block_by_seq_no : Db → ℕ → Result Handle
  pub handle_id : Handle → api.BlockId
  pub last_applied : Db → Result (Option api.BlockId)
  pub top_blocks_all : StateStuff → Result (List api.BlockId)

-- `println!` and `print!`
abbrev pub print_line : String → Io String (Unit {0})
print_line text = perform (text <> "\n") (λ h. ok tt)

abbrev pub print : String → Io String (Unit {0})
print text = perform text (λ h. ok tt)

module _ (api : Api) where
  abbrev pub block_text : Bool → api.Block → Result String
  block_text true block = api.debug_block block
  block_text false block = api.debug_block_full block

  unfoldable pub print_block : api.Block → Bool → Io String (Unit {0})
  print_block block brief = do text ← lift (outcome (block_text brief block)); print_line text

  abbrev pub state_text : Bool → api.State → Result String
  state_text true state = api.debug_state state
  state_text false state = api.debug_state_full state

  unfoldable pub print_state : api.State → Bool → Io String (Unit {0})
  print_state state brief = do text ← lift (outcome (state_text brief state)); print_line text

module _ (api : Api) (world : World api) (db : world.Db) where
  unfoldable pub print_db_block : api.BlockId → Bool → Io String (Unit {0})
  print_db_block block_id brief = do
    print_line ("loading block: " <> api.block_id_text block_id)
    found ← lift (outcome (world.load_block_handle db block_id))
    handle ← lift (ok_or ("Cannot load block " <> api.block_id_text block_id) found)
    stuff ← lift (outcome (world.load_block_data db handle))
    block ← lift (outcome (world.block stuff))
    print_block api block brief

  unfoldable pub print_db_state : api.BlockId → Bool → Io String (Unit {0})
  print_db_state block_id brief = do
    print_line ("loading state: " <> api.block_id_text block_id)
    stuff ← lift (outcome (world.load_shard_state_dynamic db block_id))
    state ← lift (outcome (world.state stuff))
    print_state api state brief

  unfoldable pub print_descrs : List api.Shard → Io String (Unit {0})
  print_descrs [] = pure tt
  print_descrs (shard ∷ shards) = do
    print_line (
        "before_merge: "
        <> (api.before_merge shard <> (" " <> api.block_id_text (api.shard_block_id shard))))
    print_descrs shards

  -- a state without shards is no error
  abbrev pub print_if_shards : Option (Iteration api.Shard) → Io String (Unit {0})
  print_if_shards none = pure tt
  print_if_shards (some (shards, last)) = do print_descrs shards; lift (ended last)

  unfoldable pub print_shards : api.BlockId → Io String (Unit {0})
  print_shards block_id = do
    print_line ("loading state: " <> api.block_id_text block_id)
    stuff ← lift (outcome (world.load_shard_state_dynamic db block_id))
    print_if_shards (world.shards stuff)

  -- the masterchain block with the number that the text stands for
  abbrev pub seqno_id : String → Outcome api.BlockId
  seqno_id id = Outcome.◌>>=◌ (parse_unsigned (2 ^ 32 - 1) id) λ mc_seqno.
      Outcome.◌>>=◌ (outcome (world.find_mc_block_by_seq_no db mc_seqno))
        λ handle. ok (world.handle_id handle)

  abbrev pub or_seqno : Option api.BlockId → String → Outcome api.BlockId
  or_seqno (some block_id) id = ok block_id
  or_seqno none id = seqno_id id

  -- a full block id, or else the number of a masterchain block
  unfoldable pub get_block_id : String → Outcome api.BlockId
  get_block_id id = or_seqno (api.block_id_from_str id) id
