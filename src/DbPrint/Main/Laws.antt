-- ===== src/DbPrint/Main/Laws.antt =====
-- How bin/print.rs reads the id of a block, and that it does not panic unless it prints accounts.
use ever_node_tools.Prelude.{
  ℕ, ◌-◌, ◌^◌, ◌≤◌, String, ◌<>◌, ◌≡◌, refl, Bool, true, false, Option, none, some, List, [], ◌∷◌,
}
use ever_node_tools.Outcome.{
  Outcome, ok, err, Result, outcome, ok_or, IsCalm, IsCalm->>=, outcome-IsCalm, ok_or-IsCalm,
  Iteration, ended,
}
use ever_node_tools.Outcome
use ever_node_tools.Io.{Io, pure, lift}
use ever_node_tools.Io.Calm.{IsCalmIo, IsCalmIo->>=, IsCalmIo-lift, IsCalmIo-call, IsCalmIo-says}
use ever_node_tools.Rust.Word.{Bytes}
use ever_node_tools.Rust.Parse.{parse_unsigned, parse_unsigned-IsCalm}
use ever_node_tools.Rust.Print.{print_ℕ, parse_unsigned-print_ℕ}
use ever_node_tools.DbPrint.Db.{
  Api, World, print_line, print_block, print_state, print_db_block, print_db_state, print_descrs,
  print_shards, get_block_id, block_text, state_text, print_if_shards, or_seqno,
}
use ever_node_tools.Clap.{Matches}
use ever_node_tools.DbPrint.Args.{Options, options_of}
use ever_node_tools.DbPrint.Main.{
  print_path, print_boc, print_db, main, given, print_if_state, print_found, print_accounts_if,
  print_given_block, print_given_state, print_given_shards, print_source,
}

module _ (api : Api) (world : World api) where
  -- If the decimal text of a number below 2 ^ 32 is not a full id, then it stands for the masterchain
  -- block with this number, or for the error of the search for it.
  pub get_block_id-print_ℕ :
      (db : world.Db) (seqno : ℕ)
      → api.block_id_from_str (print_ℕ seqno) ≡ none
      → seqno ≤ 2 ^ 32 - 1
      → get_block_id api world db (print_ℕ seqno)
        ≡ Outcome.◌>>=◌
            (outcome (world.find_mc_block_by_seq_no db seqno))
            (λ handle. ok (world.handle_id handle))
  unfolding get_block_id
  get_block_id-print_ℕ db seqno plain fits =
      rw (plain, parse_unsigned-print_ℕ (2 ^ 32 - 1) seqno fits) refl

  or_seqno-IsCalm :
      (db : world.Db) (full : Option api.BlockId) (id : String)
      → IsCalm (or_seqno api world db full id)
  or_seqno-IsCalm db (some block_id) id = tt
  or_seqno-IsCalm db none id =
      IsCalm->>= (parse_unsigned (2 ^ 32 - 1) id) _ (parse_unsigned-IsCalm _ id) λ mc_seqno.
        IsCalm->>= (outcome (world.find_mc_block_by_seq_no db mc_seqno)) _
          (outcome-IsCalm (world.find_mc_block_by_seq_no db mc_seqno)) λ handle. tt

  get_block_id-IsCalm : (db : world.Db) (id : String) → IsCalm (get_block_id api world db id)
  unfolding get_block_id
  get_block_id-IsCalm db id = or_seqno-IsCalm db (api.block_id_from_str id) id

  block_text-IsCalm :
      (brief : Bool) (block : api.Block) → IsCalm (outcome (block_text api brief block))
  block_text-IsCalm true block = outcome-IsCalm (api.debug_block block)
  block_text-IsCalm false block = outcome-IsCalm (api.debug_block_full block)

  print_block-IsCalmIo : (block : api.Block) (brief : Bool) → IsCalmIo (print_block api block brief)
  unfolding print_block
  print_block-IsCalmIo block brief =
      IsCalmIo-call (block_text api brief block) _ λ text. IsCalmIo-says _ tt

  print_state-IsCalmIo : (state : api.State) (brief : Bool) → IsCalmIo (print_state api state brief)
  unfolding print_state
  print_state-IsCalmIo state brief =
      IsCalmIo-call (state_text api brief state) _ λ text. IsCalmIo-says _ tt

  quiet : IsCalmIo {E = String} (pure tt)
  unfolding IsCalmIo
  quiet h = tt

  ended-IsCalmIo : (last : Option String) → IsCalmIo {E = String} (lift (ended last))
  unfolding IsCalmIo
  ended-IsCalmIo none h = tt
  ended-IsCalmIo (some e) h = tt

  given-IsCalmIo :
      (text : Option String) (f : String → Io String (Unit {0}))
      → ((id : String) → IsCalmIo (f id))
      → IsCalmIo (given api world text f)
  unfolding IsCalmIo
  given-IsCalmIo none f calm h = tt
  given-IsCalmIo (some id) f calm h = calm id h

  module _ (db : world.Db) where
    print_db_block-IsCalmIo :
        (block_id : api.BlockId) (brief : Bool)
        → IsCalmIo (print_db_block api world db block_id brief)
    unfolding print_db_block
    print_db_block-IsCalmIo block_id brief =
        IsCalmIo->>= (print_line ("loading block: " <> api.block_id_text block_id)) _
          (IsCalmIo-says _ tt)
          λ _. IsCalmIo-call (world.load_block_handle db block_id) _ λ found.
            IsCalmIo-lift (ok_or ("Cannot load block " <> api.block_id_text block_id) found) _
              (ok_or-IsCalm _ found)
              λ handle. IsCalmIo-call (world.load_block_data db handle) _ λ stuff.
                IsCalmIo-call (world.block stuff) _ λ block. print_block-IsCalmIo block brief

    print_db_state-IsCalmIo :
        (block_id : api.BlockId) (brief : Bool)
        → IsCalmIo (print_db_state api world db block_id brief)
    unfolding print_db_state
    print_db_state-IsCalmIo block_id brief =
        IsCalmIo->>= (print_line ("loading state: " <> api.block_id_text block_id)) _
          (IsCalmIo-says _ tt)
          λ _.
            IsCalmIo-call (world.load_shard_state_dynamic db block_id) _
              λ stuff. IsCalmIo-call (world.state stuff) _ λ state. print_state-IsCalmIo state brief

    print_descrs-IsCalmIo : (shards : List api.Shard) → IsCalmIo (print_descrs api world db shards)
    unfolding print_descrs IsCalmIo
    print_descrs-IsCalmIo [] h = tt
    print_descrs-IsCalmIo (shard ∷ shards) h = print_descrs-IsCalmIo shards _

    print_if_shards-IsCalmIo :
        (shards : Option (Iteration api.Shard)) → IsCalmIo (print_if_shards api world db shards)
    print_if_shards-IsCalmIo none = quiet
    print_if_shards-IsCalmIo (some (shards, last)) =
        IsCalmIo->>= (print_descrs api world db shards) _ (print_descrs-IsCalmIo shards)
          (λ _. ended-IsCalmIo last)

    print_shards-IsCalmIo : (block_id : api.BlockId) → IsCalmIo (print_shards api world db block_id)
    unfolding print_shards
    print_shards-IsCalmIo block_id =
        IsCalmIo->>= (print_line ("loading state: " <> api.block_id_text block_id)) _
          (IsCalmIo-says _ tt)
          λ _.
            IsCalmIo-call (world.load_shard_state_dynamic db block_id) _
              λ stuff. print_if_shards-IsCalmIo (world.shards stuff)

    no_accounts :
        (last_accounts : Bool)
        → last_accounts ≡ false
        → IsCalmIo (print_accounts_if api world last_accounts db)
    no_accounts true absent = cc
    no_accounts false absent = quiet

    print_db-IsCalmIo :
        (options : Options)
        → options.last_accounts ≡ false
        → IsCalmIo (print_db api world db options)
    unfolding print_db
    print_db-IsCalmIo options absent =
        IsCalmIo->>= (given api world options.block (print_given_block api world db options.brief))
          _
          (given-IsCalmIo options.block _ λ id.
            IsCalmIo-lift (get_block_id api world db id) _ (get_block_id-IsCalm db id)
              λ block_id. print_db_block-IsCalmIo block_id options.brief)
          λ _.
            IsCalmIo->>=
              (given api world options.state (print_given_state api world db options.brief)) _
              (given-IsCalmIo options.state _ λ id.
                IsCalmIo-lift (get_block_id api world db id) _ (get_block_id-IsCalm db id)
                  λ block_id. print_db_state-IsCalmIo block_id options.brief)
              λ _.
                IsCalmIo->>= (given api world options.shards (print_given_shards api world db)) _
                  (given-IsCalmIo options.shards _ λ id.
                    IsCalmIo-lift (get_block_id api world db id) _ (get_block_id-IsCalm db id)
                      λ block_id. print_shards-IsCalmIo block_id)
                  λ _. no_accounts options.last_accounts absent

  print_if_state-IsCalmIo :
      (state : Option api.State) (brief : Bool) → IsCalmIo (print_if_state api world state brief)
  print_if_state-IsCalmIo none brief = quiet
  print_if_state-IsCalmIo (some state) brief = print_state-IsCalmIo state brief

  print_found-IsCalmIo :
      (block : Option api.Block) (bytes : Bytes) (brief : Bool)
      → IsCalmIo (print_found api world block bytes brief)
  print_found-IsCalmIo (some block) bytes brief = print_block-IsCalmIo block brief
  print_found-IsCalmIo none bytes brief = print_if_state-IsCalmIo (api.state_from_bytes bytes) brief

  print_boc-IsCalmIo : (bytes : Bytes) (brief : Bool) → IsCalmIo (print_boc api world bytes brief)
  unfolding print_boc
  print_boc-IsCalmIo bytes brief = print_found-IsCalmIo (api.block_from_bytes bytes) bytes brief

  print_source-IsCalmIo :
      (boc : Option String) (options : Options)
      → options.last_accounts ≡ false
      → IsCalmIo (print_source api world boc options)
  print_source-IsCalmIo (some path) options absent =
      IsCalmIo-call (world.file path) _ λ bytes. print_boc-IsCalmIo bytes options.brief
  print_source-IsCalmIo none options absent =
      given-IsCalmIo options.path (print_path api world options) λ db_dir.
        IsCalmIo-call (world.with_update db_dir) _ λ db. print_db-IsCalmIo db options absent

  -- Without the option for the accounts `main` of bin/print.rs never panics, whatever the
  -- other options, the files and the database are.
  pub main-IsCalmIo :
      (args : Matches) → args.is_present "LAST_ACCOUNTS" ≡ false → IsCalmIo (main api world args)
  unfolding main
  main-IsCalmIo args absent = print_source-IsCalmIo (args.value_of "BOC") (options_of args) absent
