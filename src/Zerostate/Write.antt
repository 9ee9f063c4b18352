-- ===== src/Zerostate/Write.antt =====
-- write_zero_state and `main` of bin/zerostate.rs. The command line is given as its values here.
use ever_node_tools.Prelude.{
  ℕ, suc, zero, ◌+◌, ◌-◌, ◌%◌, ◌^◌, String, ◌<>◌, Option, none, some, List, [], ◌∷◌,
}
use ever_node_tools.Prelude.Int.{pos, negsuc}
use ever_node_tools.Outcome.{Outcome, ok, panic, err, Result, outcome, expect, expect_some, ended}
use ever_node_tools.Outcome
use ever_node_tools.Io.{Io, lift, perform, ◌>>=◌, ◌>>◌}
use ever_node_tools.Rust.Word.{Bytes}
use ever_node_tools.Json.{Json, str, num, obj, end, field}
use ever_node_tools.Rust.Print.{print_ℕ}
use ever_node_tools.Zerostate.Api.{Api, World, Event, write, write_text, println, fs_write}
use ever_node_tools.Zerostate.Import.{boc_name, import_zerostate}

-- `Result::unwrap`
abbrev pub unwrap {ℓ} : {A : Type ℓ} → Outcome A → Outcome A
unwrap = expect "called `Result::unwrap()` on an `Err` value"

-- the panic of a call of an `Io`
abbrev pub io_unwrap : {A : Type 0} → Io Event A → Io Event A
io_unwrap m h = let (r, g) = m h in (unwrap r, g)

module _ (api : Api) where
  -- every parameter has a number for its key, and a reference for its value
  unfoldable pub check_params : List (api.Slice × api.Slice) → Outcome (Unit {0})
  check_params [] = ok tt
  check_params ((key, param) ∷ other) =
      Outcome.◌>>=◌ (expect "index wasn't deserialized incorrectly" (outcome (api.u32_from key)))
        λ index.
          Outcome.◌>>=◌
            (expect "must contain reference" (outcome (api.checked_drain_reference param)))
            λ cell. check_params other

  -- the prices from `i` on, as many as the first argument says
  unfoldable pub check_prices : ℕ → ℕ → api.Prices → Outcome (Unit {0})
  check_prices zero i prices = ok tt
  check_prices (suc n) i prices =
      Outcome.◌>>=◌
        (expect ("prices description " <> (print_ℕ i <> " wasn't read"))
          (outcome (api.price i prices)))
        λ price. check_prices n (i + 1) prices

  unfoldable pub check_config : api.Config → Outcome (Unit {0})
  unfolding check_params check_prices
  check_config config =
      let (params, last) = api.config_params config in
      Outcome.◌>>=◌ (check_params params) λ done.
        Outcome.◌>>=◌ (expect "something wrong with config" (ended last)) λ done'.
          Outcome.◌>>=◌
            (expect "prices weren't read from config" (outcome (api.storage_prices config)))
            λ prices.
              Outcome.◌>>=◌ (expect "prices len wasn't read" (outcome (api.prices_len prices)))
                λ n. check_prices (n % 2 ^ 32) 0 prices

  -- the file that was written can be read back
  unfoldable pub check_state : Bytes → Outcome (Unit {0})
  unfolding check_config
  check_state bytes =
      Outcome.◌>>=◌ (expect "can't deserialize state" (outcome (api.construct_from_bytes bytes)))
        λ mc_zero_state.
          Outcome.◌>>=◌
            (expect "extra wasn't read from state" (outcome (api.read_custom mc_zero_state)))
            λ custom.
              Outcome.◌>>=◌ (expect_some "extra must be in state" custom)
                λ extra. check_config extra.config

  unfoldable pub config_json : api.Cell → Bytes → Json
  config_json cell file_hash = obj (
      field "zero_state"
        (obj (
          field "workchain" (num (negsuc 0)) (
            field "shard" (num (negsuc (2 ^ 63 - 1))) (
              field "seqno" (num (pos 0)) (
                field "root_hash" (str (api.base64_encode (api.repr_hash cell)))
                  (field "file_hash" (str (api.base64_encode file_hash)) end))))))
        end)

module _ (api : Api) (world : World) where
  unfoldable pub write_zero_state : api.State → Io Event (Unit {0})
  unfolding check_state config_json
  write_zero_state mc_zero_state = do
    cell ← lift (unwrap (outcome (api.serialize mc_zero_state)))
    bytes ← lift (unwrap (outcome (api.write_boc cell)))
    io_unwrap (fs_write world (write (boc_name api world (api.calc_file_hash bytes)) bytes))
    lift (check_state api bytes)
    json ← lift (outcome (api.to_string_pretty (config_json api cell (api.calc_file_hash bytes))))
    fs_write world (write_text "config.json" json)
    perform (println json) (λ h. ok tt)

  -- a contract's file, or a panic that names it
  abbrev contract : String → String → Outcome api.StateInit
  contract text path = expect (text <> path) (outcome (api.construct_from_file path))

  unfoldable pub update_config : Option String → api.State → Outcome api.State
  update_config none mc_zero_state =
      unwrap (outcome (api.update_config_smc_with_code none mc_zero_state))
  update_config (some path) mc_zero_state =
      Outcome.◌>>=◌ (contract "something wrong with config TVC file " path) λ state_init.
        unwrap (outcome (api.update_config_smc_with_code (api.code_of state_init) mc_zero_state))

  unfoldable pub update_elector : Option String → api.State → Outcome api.State
  update_elector none mc_zero_state = ok mc_zero_state
  update_elector (some path) mc_zero_state =
      Outcome.◌>>=◌ (contract "something wrong with elector TVC file " path) λ state_init. unwrap (
        outcome
          (api.update_elector_smc (api.code_of state_init) (api.data_of state_init) mc_zero_state))

  -- The arguments are INPUT, CONFIG and ELECTOR.
  unfoldable pub main : String → Option String → Option String → Io Event (Unit {0})
  unfolding update_config update_elector write_zero_state
  main input config elector = do
    json ← lift (unwrap (outcome (world.read_to_string input)))
    imported ← io_unwrap (import_zerostate api world json)
    configured ← lift (update_config config imported)
    elected ← lift (update_elector elector configured)
    io_unwrap (write_zero_state elected)
