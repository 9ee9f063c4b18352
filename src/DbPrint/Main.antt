-- ===== src/DbPrint/Main.antt =====
-- `main` of bin/print.rs behind its command line: what is printed for which options.
pub mod Laws
use ever_node_tools.Prelude.{String, Bool, Option, none, some}
use ever_node_tools.Outcome.{outcome}
use ever_node_tools.Io.{Io, pure, lift, ◌>>=◌, ◌>>◌}
use ever_node_tools.Rust.Word.{Bytes}
use ever_node_tools.DbPrint.Db.{
  Api, World, print_block, print_state, print_db_block, print_db_state, print_shards, get_block_id,
}
use ever_node_tools.Prelude.{if◌then◌else◌}
use ever_node_tools.Clap.{Matches}
use ever_node_tools.DbPrint.Args.{Options, options_of}
use ever_node_tools.DbPrint.Accounts.{print_accounts}

module _ (api : Api) (world : World api) where
  -- the state is tried only if the file holds no block
  abbrev pub print_if_state : Option api.State → Bool → Io String (Unit {0})
  print_if_state none brief = pure tt
  print_if_state (some state) brief = print_state api state brief

  abbrev pub print_found : Option api.Block → Bytes → Bool → Io String (Unit {0})
  print_found (some block) bytes brief = print_block api block brief
  print_found none bytes brief = print_if_state (api.state_from_bytes bytes) brief

  unfoldable pub print_boc : Bytes → Bool → Io String (Unit {0})
  print_boc bytes brief = print_found (api.block_from_bytes bytes) bytes brief

  abbrev pub given : Option String → (String → Io String (Unit {0})) → Io String (Unit {0})
  given none f = pure tt
  given (some text) f = f text

  abbrev pub print_accounts_if : Bool → world.Db → Io String (Unit {0})
  print_accounts_if last_accounts db =
      if last_accounts then print_accounts api world db else pure tt

  abbrev pub print_given_block : world.Db → Bool → String → Io String (Unit {0})
  print_given_block db brief id = do
    block_id ← lift (get_block_id api world db id)
    print_db_block api world db block_id brief

  abbrev pub print_given_state : world.Db → Bool → String → Io String (Unit {0})
  print_given_state db brief id = do
    block_id ← lift (get_block_id api world db id)
    print_db_state api world db block_id brief

  abbrev pub print_given_shards : world.Db → String → Io String (Unit {0})
  print_given_shards db id = do
    block_id ← lift (get_block_id api world db id)
    print_shards api world db block_id

  unfoldable pub print_db : world.Db → Options → Io String (Unit {0})
  print_db db options = do
    given options.block (print_given_block db options.brief)
    given options.state (print_given_state db options.brief)
    given options.shards (print_given_shards db)
    print_accounts_if options.last_accounts db

  abbrev pub print_file : String → Bool → Io String (Unit {0})
  print_file path brief = do bytes ← lift (outcome (world.file path)); print_boc bytes brief

  abbrev pub print_path : Options → String → Io String (Unit {0})
  print_path options db_dir = do db ← lift (outcome (world.with_update db_dir)); print_db db options

  abbrev pub print_source : Option String → Options → Io String (Unit {0})
  print_source (some path) options = print_file path options.brief
  print_source none options = given options.path (print_path options)

  unfoldable pub main_with : Options → Io String (Unit {0})
  unfolding print_boc print_db
  main_with options = print_source options.boc options

  unfoldable pub main : Matches → Io String (Unit {0})
  unfolding main_with
  main args = main_with (options_of args)
