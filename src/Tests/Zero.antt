-- ===== src/Tests/Zero.antt =====
-- A zero state with one workchain, in a world where every write succeeds.
use ever_node_tools.Prelude.{
  ℕ, ◌^◌, ◌==◌, ◌&&◌, String, Bool, true, false, Bool-cases, ◌≡◌, ◌↔◌, ◌≢◌, ◌⊎◌, refl, sym, inl,
  inr, Option, none, some, List, [], ◌∷◌, arith, if◌then◌else◌,
}
use ever_node_tools.Prelude.Int.{ℤ, pos, negsuc, pos_part, neg_part, eq_of_parts}
use ever_node_tools.Outcome.{ok, err, panic}
use ever_node_tools.Rust.Word.{Bytes}
use ever_node_tools.Zerostate.Api.{Api, World, Descr, Extra, Event}
use ever_node_tools.Zerostate.Import.{
  import_zerostate, set_extra, set_workchains, set_workchain, set_validators,
}
use ever_node_tools.Zerostate.Write.{
  main, write_zero_state, check_state, check_config, check_params, check_prices, update_config,
  update_elector,
}
use ever_node_tools.Zerostate.Files.{Named, main-Named}
use ever_node_tools.Zerostate.Hashes.{Laws, ReadsBack, import_zerostate-Described}
use ever_node_tools.Zerostate.Ends.{Prepares, Stores, main_iff}
use ever_node_tools.Tests.Hex.{encode_upper}

same_id : ℤ → ℤ → Bool
same_id a b = (pos_part a == pos_part b) && (neg_part a == neg_part b)

same_id_refl : (a : ℤ) → same_id a a ≡ true
unfolding same_id
same_id_refl a = ground arith

same_id_differs : (a b : ℤ) → a ≢ b → same_id a b ≡ false
unfolding same_id
same_id_differs a b differs = elim (Bool-cases (same_id a b)) [
  | inl same ↦ absurd (differs (eq_of_parts a b (ground arith)))
  | inr other ↦ other
]

-- the entries that are visited, and what the map holds by now
abbrev Chains : Type 0
Chains = List (ℤ × Descr Unit) × (ℤ → Option (Descr Unit))

abbrev McExtra : Type 0
McExtra = Extra Chains Unit

abbrev bare : Descr Unit
bare = record { zerostate_root_hash = []; zerostate_file_hash = []; other = tt }

abbrev described : Chains
described = ((pos 0, bare) ∷ [], λ id. some bare)

abbrev extra : McExtra
extra = record {
  config = described;
  validator_info = record {
    validator_list_hash_short = 0;
    catchain_seqno = 3;
    nx_cc_updated = false;
  };
  other = tt;
}

abbrev zero_api : Api
zero_api = record {
  Map = String;
  from_str = inr;
  State = Option McExtra;
  parse_state = λ map. inr (some extra);
  gen_time = λ state. 7;
  set_gen_time = λ time state. state;
  global_id = λ state. pos 42;
  set_global_id = λ id state. state;
  set_min_ref_mc_seqno = λ seqno state. state;
  Shard = ℤ;
  with_tagged_prefix = λ id prefix. inr id;
  shard_full = 2 ^ 63;
  masterchain_id = negsuc 0;
  with_ident = λ shard. none;
  Config = Chains;
  ExtraOther = Unit;
  read_custom = inr;
  write_custom = λ custom state. inr custom;
  Workchains = Chains;
  DescrOther = Unit;
  workchains = inr;
  entries = λ w. (w.0, none);
  set = λ id descr w. inr (w.0, λ other. if same_id other id then some descr else w.1 other);
  set_config_12 = λ w config. inr w;
  Catchain = Unit;
  catchain_config = λ config. inr tt;
  Validators = Unit;
  validator_set = λ config. inr tt;
  calc_subset = λ validators catchain shard workchain seqno time. inr (tt, 5);
  Cell = Bytes;
  serialize = λ state. inr (elim state [ none ↦ 1 ∷ [] | some e ↦ 2 ∷ [] ]);
  repr_hash = λ cell. 170 ∷ cell;
  write_boc = λ cell. inr (181 ∷ cell);
  calc_file_hash = λ bytes. 255 ∷ bytes;
  construct_from_bytes = λ bytes. inr (some extra);
  Slice = ℕ;
  config_params = λ config. ((12, 1) ∷ [], none);
  u32_from = inr;
  checked_drain_reference = λ slice. inr [];
  Prices = ℕ;
  storage_prices = λ config. inr 2;
  prices_len = inr;
  Price = Unit;
  price = λ i prices. inr tt;
  StateInit = Unit;
  construct_from_file = λ path. inr tt;
  code_of = λ init. none;
  data_of = λ init. none;
  update_config_smc_with_code = λ code state. inr state;
  update_elector_smc = λ code content state. inr state;
  lower_hex = encode_upper;
  base64_encode = encode_upper;
  to_string_pretty = λ json. inr "{}";
}

abbrev disk : World
disk = record { read_to_string = λ path. inr "{}"; write_answer = λ h event. inr tt }

-- one entry of the map that `set` makes
abbrev put : ℤ → Descr Unit → Chains → Chains
put id descr w = (w.0, λ other. if same_id other id then some descr else w.1 other)

inr_injective : {A : Type 0} {a b : A} → ◌≡◌ {A = String ⊎ A} (inr a) (inr b) → a ≡ b
inr_injective e = cc

zero_laws : Laws zero_api
zero_laws = record {
  get = λ id w. w.1 id;
  get-set = λ id descr w w' e.
      let same : put id descr w ≡ w' = inr_injective e in rw (← same, same_id_refl id) refl;
  get-set_other = λ id other descr w w' e differs.
      let same : put id descr w ≡ w' = inr_injective e in
      rw (← same, same_id_differs other id differs) refl;
  workchains-set_config_12 = λ w config config' e. sym e;
  read_custom-write_custom = λ extra' state state' e. sym e;
}

main-Named_example :
    Named zero_api disk (main zero_api disk "zero.json" none (some "elector.tvc") []).1
main-Named_example = main-Named zero_api disk "zero.json" none (some "elector.tvc") [] tt

main_ran :
    main zero_api disk "zero.json" none none []
    ≡ (ok tt, (main zero_api disk "zero.json" none none []).1)
unfolding main write_zero_state check_state check_config check_params check_prices update_config
    update_elector import_zerostate set_extra set_workchains set_workchain set_validators
main_ran = refl

main_iff_example :
    (main zero_api disk "zero.json" none none []
      ≡ (ok tt, (main zero_api disk "zero.json" none none []).1))
    ↔ ((state : Option McExtra) × (h1 : List Event) × Prepares zero_api disk "zero.json" none none
          [] state h1
        × Stores zero_api disk state h1 (main zero_api disk "zero.json" none none []).1)
main_iff_example =
    main_iff zero_api disk "zero.json" none none [] (main zero_api disk "zero.json" none none []).1

-- A zero state is written in the example world, so the conditions can be met.
main_stored :
    (state : Option McExtra) × (h1 : List Event) × Prepares zero_api disk "zero.json" none none []
      state h1
    × Stores zero_api disk state h1 (main zero_api disk "zero.json" none none []).1
main_stored = main_iff_example.0 main_ran

abbrev imported : Option McExtra
imported = elim (import_zerostate zero_api disk "{}" []).0 [
  | ok state ↦ state
  | err e ↦ none
  | panic e ↦ none
]

import_ran :
    import_zerostate zero_api disk "{}" []
    ≡ (ok imported, (import_zerostate zero_api disk "{}" []).1)
unfolding import_zerostate set_extra set_workchains set_workchain set_validators
import_ran = refl

import_zerostate-Described_example :
    ReadsBack zero_api disk zero_laws
      (some extra)
      described
      imported
      (import_zerostate zero_api disk "{}" []).1
import_zerostate-Described_example =
    import_zerostate-Described zero_api disk zero_laws (some extra) "{}" "{}" extra described
      imported [] (import_zerostate zero_api disk "{}" []).1 refl refl refl refl (tt, tt) import_ran
