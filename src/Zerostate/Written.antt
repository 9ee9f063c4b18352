-- ===== src/Zerostate/Written.antt =====
-- What bin/zerostate.rs has written when it ends normally.
use ever_node_tools.Prelude.{String, ◌<>◌, ◌≡◌, refl, sym, ap, ◌∙◌, inr, Option, some, List, ◌∷◌}
use ever_node_tools.Outcome.{
  Outcome, ok, outcome, expect, expect_some, outcome-eq-ok, expect-eq-ok, expect_some-eq-ok,
}
use ever_node_tools.Outcome
use ever_node_tools.Rust.Word.{Bytes}
use ever_node_tools.Io.{Io, lift, after, after_call, after_all}
use ever_node_tools.Zerostate.Api.{Api, World, Extra, Event, write, write_text, println, fs_write}
use ever_node_tools.Zerostate.Import.{boc_name, import_zerostate}
use ever_node_tools.Zerostate.Write.{
  unwrap, io_unwrap, check_state, check_config, config_json, write_zero_state, update_config,
  update_elector, main,
}

module _ (api : Api) (world : World) where
  -- The file can be read back as a state whose configuration passes the checks.
  abbrev pub IsReadable : Bytes → Type 0
  IsReadable bytes =
      (read : api.State) × (extra : Extra api.Config api.ExtraOther) × (api.construct_from_bytes
          bytes
        ≡ inr read)
      × (api.read_custom read ≡ inr (some extra))
      × (check_config api extra.config ≡ ok tt)

  -- The last three things that were done are about one cell: its file was written, under the name of
  -- the file's hash, and can be read back as a state whose configuration passes the checks; the text
  -- of config.json, with the hashes of the cell and of the file, was written and then printed.
  abbrev pub IsWritten : List Event → Type 0
  IsWritten g =
      (cell : api.Cell) × (bytes : Bytes) × (json : String) × (earlier : List Event)
      × (api.write_boc cell ≡ inr bytes)
      × (api.to_string_pretty (config_json api cell (api.calc_file_hash bytes)) ≡ inr json)
      × IsReadable bytes
      × (g
          ≡ println json
            ∷ write_text "config.json" json
            ∷ write (api.lower_hex (api.calc_file_hash bytes) <> ".boc") bytes
            ∷ earlier)

  pub check_state-IsReadable : (bytes : Bytes) → check_state api bytes ≡ ok tt → IsReadable bytes
  unfolding check_state
  check_state-IsReadable bytes done =
      Outcome.after (expect _ (outcome (api.construct_from_bytes bytes))) _ done λ read e1 d1.
        Outcome.after (expect _ (outcome (api.read_custom read))) _ d1 λ custom e2 d2.
          Outcome.after (expect_some _ custom) _ d2 λ extra e3 d3. (
            read,
            extra,
            outcome-eq-ok (api.construct_from_bytes bytes) (expect-eq-ok _ _ e1),
            outcome-eq-ok (api.read_custom read) (expect-eq-ok _ _ e2)
                ∙ ap inr (expect_some-eq-ok _ custom e3),
            d3,
          )

  write_zero_state-IsWritten :
      (mc_zero_state : api.State) (h g : List Event)
      → write_zero_state api world mc_zero_state h ≡ (ok tt, g)
      → IsWritten g
  unfolding write_zero_state boc_name
  write_zero_state-IsWritten mc_zero_state h g done =
      after (lift (unwrap (outcome (api.serialize mc_zero_state)))) _ h done refl λ cell e1 d1.
        after (lift (unwrap (outcome (api.write_boc cell)))) _ h d1 refl λ bytes e2 d2.
          let hash = api.calc_file_hash bytes in
          after (io_unwrap (fs_write world (write (boc_name api world hash) bytes))) _ h d2 refl
            λ _ e3 d3. after (lift (check_state api bytes)) _ _ d3 refl λ _ e4 d4.
              after_call (api.to_string_pretty (config_json api cell hash)) _ _ d4 λ json e5 d5.
                after (fs_write world (write_text "config.json" json)) _ _ d5 refl λ _ e6 d6. (
                  cell,
                  bytes,
                  json,
                  _,
                  outcome-eq-ok (api.write_boc cell) (expect-eq-ok _ _ e2),
                  e5,
                  check_state-IsReadable bytes e4,
                  sym (ap (λ p. p.1) d6),
                )

  pub io_unwrap-eq-ok :
      {A : Type 0} (m : Io Event A) (h : List Event) {a : A} {g : List Event}
      → io_unwrap m h ≡ (ok a, g)
      → m h ≡ (ok a, g)
  io_unwrap-eq-ok m h e =
      let value = expect-eq-ok _ (m h).0 (ap (λ p. p.0) e) in λ i. (value i, (e i).1)

  -- If `main` of bin/zerostate.rs ends without a panic, then the file written last but one,
  -- config.json and the line printed last are about one cell, and the file can be read back as a
  -- state whose configuration passes the checks.
  pub main-IsWritten :
      (input : String) (config elector : Option String) (h g : List Event)
      → main api world input config elector h ≡ (ok tt, g)
      → IsWritten g
  unfolding main
  main-IsWritten input config elector h g done =
      after (lift (unwrap (outcome (world.read_to_string input)))) _ h done refl λ json e1 d1.
        after_all (io_unwrap (import_zerostate api world json)) _ h d1 λ imported h1 e2 d2.
          after (lift (update_config api world config imported)) _ h1 d2 refl λ configured e3 d3.
            after (lift (update_elector api world elector configured)) _ h1 d3 refl λ elected e4 d4.
              write_zero_state-IsWritten elected h1 g
                (io_unwrap-eq-ok (write_zero_state api world elected) h1 d4)
