-- ===== src/Zerostate/Import.antt =====
-- import_zerostate of bin/zerostate.rs.
use ever_node_tools.Prelude.{ℕ, ◌-◌, ◌^◌, String, ◌<>◌, true, some, List, [], ◌∷◌}
use ever_node_tools.Prelude.Int.{ℤ}
use ever_node_tools.Outcome.{Outcome, ok, panic, err, Result, outcome, expect_some, ended}
use ever_node_tools.Outcome
use ever_node_tools.Rust.Word.{Bytes}
use ever_node_tools.Io.{Io, pure, lift, ◌>>=◌, ◌>>◌}
use ever_node_tools.Zerostate.Api.{Api, World, Descr, Extra, Event, write, fs_write}

module _ (api : Api) (world : World) where
  abbrev pub ApiDescr : Type 0
  ApiDescr = Descr api.DescrOther

  abbrev pub ApiExtra : Type 0
  ApiExtra = Extra api.Config api.ExtraOther

  -- `state` of a workchain's shard
  unfoldable pub empty_state : api.State → ℕ → api.Shard → api.State
  empty_state mc_zero_state now shard = api.set_min_ref_mc_seqno (2 ^ 32 - 1) (
      api.set_global_id (api.global_id mc_zero_state) (api.set_gen_time now (api.with_ident shard)))

  -- a workchain's description with the hashes of its state's cell and of the file with that cell
  unfoldable pub with_hashes : ApiDescr → api.Cell → Bytes → ApiDescr
  with_hashes descr cell bytes = record {
    zerostate_root_hash = api.repr_hash cell;
    zerostate_file_hash = api.calc_file_hash bytes;
    other = descr.other;
  }

  -- `{:x}.boc`
  unfoldable pub boc_name : Bytes → String
  boc_name hash = api.lower_hex hash <> ".boc"

  -- the callback; the states are collected in `wc_zero_state`, which nothing reads
  unfoldable pub set_workchain :
      api.State → ℕ → ℤ → ApiDescr → api.Workchains → Io Event api.Workchains
  unfolding empty_state with_hashes boc_name
  set_workchain mc_zero_state now workchain_id descr workchains = do
    shard ← lift (outcome (api.with_tagged_prefix workchain_id api.shard_full))
    cell ← lift (outcome (api.serialize (empty_state mc_zero_state now shard)))
    bytes ← lift (outcome (api.write_boc cell))
    workchains' ← lift (outcome (api.set workchain_id (with_hashes descr cell bytes) workchains))
    fs_write world (write (boc_name (api.calc_file_hash bytes)) bytes)
    pure workchains'

  unfoldable pub set_workchains :
      api.State → ℕ → List (ℤ × ApiDescr) → api.Workchains → Io Event api.Workchains
  unfolding set_workchain
  set_workchains mc_zero_state now [] workchains = pure workchains
  set_workchains mc_zero_state now ((workchain_id, descr) ∷ other) workchains = do
    workchains' ← set_workchain mc_zero_state now workchain_id descr workchains
    set_workchains mc_zero_state now other workchains'

  -- the validators of the first masterchain block
  unfoldable pub set_validators : ℕ → ApiExtra → Outcome ApiExtra
  set_validators now extra = Outcome.◌>>=◌ (outcome (api.catchain_config extra.config)) λ ccvc.
      Outcome.◌>>=◌ (outcome (api.validator_set extra.config)) λ cur_validators.
        Outcome.◌>>=◌
          (outcome (api.calc_subset cur_validators ccvc api.shard_full api.masterchain_id 0 now))
          λ (validators, hash_short). ok (record {
            config = extra.config;
            validator_info = record {
              validator_list_hash_short = hash_short;
              catchain_seqno = 0;
              nx_cc_updated = true;
            };
            other = extra.other;
          })

  abbrev pub with_config : ApiExtra → api.Config → ApiExtra
  with_config extra config = record {
    config = config;
    validator_info = extra.validator_info;
    other = extra.other;
  }

  -- from the configuration's workchains to the state that is returned
  unfoldable pub set_extra : api.State → ApiExtra → api.Workchains → Io Event api.State
  unfolding set_workchains set_validators
  set_extra mc_zero_state extra workchains = do
    workchains' ←
        set_workchains mc_zero_state (api.gen_time mc_zero_state) (api.entries workchains).0
          workchains
    lift (ended (api.entries workchains).1)
    config ← lift (outcome (api.set_config_12 workchains' extra.config))
    extra' ← lift (set_validators (api.gen_time mc_zero_state) (with_config extra config))
    lift (outcome (api.write_custom (some extra') mc_zero_state))

  unfoldable pub import_zerostate : String → Io Event api.State
  unfolding set_extra
  import_zerostate json = do
    map ← lift (outcome (api.from_str json))
    mc_zero_state ← lift (outcome (api.parse_state map))
    custom ← lift (outcome (api.read_custom mc_zero_state))
    extra ← lift (expect_some "must be in mc state" custom)
    workchains ← lift (outcome (api.workchains extra.config))
    set_extra mc_zero_state extra workchains
