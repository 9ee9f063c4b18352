-- ===== src/Zerostate/Ends.antt =====
-- When bin/zerostate.rs ends normally.
use ever_node_tools.Prelude.{String, ◌≡◌, ◌↔◌, refl, sym, ap, inr, Option, List, ◌∷◌}
use ever_node_tools.Outcome.{ok, outcome, expect-eq-ok, outcome-eq-ok}
use ever_node_tools.Rust.Word.{Bytes}
use ever_node_tools.Io.{lift, after, after_call, after_all}
use ever_node_tools.Zerostate.Api.{Api, World, Event, write, write_text, println, fs_write}
use ever_node_tools.Zerostate.Import.{boc_name, import_zerostate}
use ever_node_tools.Zerostate.Write.{
  unwrap, io_unwrap, check_state, config_json, write_zero_state, update_config, update_elector,
  main,
}
use ever_node_tools.Zerostate.Written.{IsReadable, check_state-IsReadable, io_unwrap-eq-ok}

module _ (api : Api) (world : World) where
  abbrev written : Bytes → List Event → List Event
  written bytes h = write (boc_name api world (api.calc_file_hash bytes)) bytes ∷ h

  -- The state can be made a cell, and its file can be written and read back; so can config.json, with
  -- the hashes of the cell and of the file, which is printed too.
  abbrev pub Stores : api.State → List Event → List Event → Type 0
  Stores state h g =
      (cell : api.Cell) × (bytes : Bytes) × (json : String) × (api.serialize state ≡ inr cell)
      × (api.write_boc cell ≡ inr bytes)
      × (world.write_answer h (write (boc_name api world (api.calc_file_hash bytes)) bytes)
          ≡ inr tt)
      × IsReadable api world bytes
      × (api.to_string_pretty (config_json api cell (api.calc_file_hash bytes)) ≡ inr json)
      × (world.write_answer (written bytes h) (write_text "config.json" json) ≡ inr tt)
      × (g ≡ println json ∷ write_text "config.json" json ∷ written bytes h)

  IsReadable-check_state :
      (bytes : Bytes) → IsReadable api world bytes → check_state api bytes ≡ ok tt
  unfolding check_state
  IsReadable-check_state bytes (read, extra, parsed, custom, checked) = rw (parsed, custom, checked)

  write_zero_state-Stores :
      (state : api.State) (h g : List Event)
      → write_zero_state api world state h ≡ (ok tt, g)
      → Stores state h g
  unfolding write_zero_state
  write_zero_state-Stores state h g done =
      after (lift (unwrap (outcome (api.serialize state)))) _ h done refl λ cell e1 d1.
        after (lift (unwrap (outcome (api.write_boc cell)))) _ h d1 refl λ bytes e2 d2.
          let event = write (boc_name api world (api.calc_file_hash bytes)) bytes in
          after (io_unwrap (fs_write world event)) _ h d2 refl λ _ e3 d3.
            after (lift (check_state api bytes)) _ _ d3 refl λ _ e4 d4.
              after_call (api.to_string_pretty (config_json api cell (api.calc_file_hash bytes))) _
                _ d4
                λ json e5 d5.
                  after (fs_write world (write_text "config.json" json)) _ _ d5 refl λ _ e6 d6. (
                    cell,
                    bytes,
                    json,
                    outcome-eq-ok (api.serialize state) (expect-eq-ok _ _ e1),
                    outcome-eq-ok (api.write_boc cell) (expect-eq-ok _ _ e2),
                    outcome-eq-ok (world.write_answer h event) (expect-eq-ok _ _ e3),
                    check_state-IsReadable api world bytes e4,
                    e5,
                    outcome-eq-ok _ e6,
                    sym (ap (λ p. p.1) d6),
                  )

  Stores-write_zero_state :
      (state : api.State) (h g : List Event)
      → Stores state h g
      → write_zero_state api world state h ≡ (ok tt, g)
  unfolding write_zero_state
  Stores-write_zero_state state h g
        (cell, bytes, json, serialized, boc, stored, readable, shown, saved, left) =
      rw (serialized, boc, stored, IsReadable-check_state bytes readable, shown, saved, left)

  -- What `main` gets before it writes the masterchain's state.
  abbrev pub Prepares :
      String → Option String → Option String → List Event → api.State → List Event → Type 0
  Prepares input config elector h state h1 =
      (json : String) × (imported configured : api.State) × (world.read_to_string input ≡ inr json)
      × (import_zerostate api world json h ≡ (ok imported, h1))
      × (update_config api world config imported ≡ ok configured)
      × (update_elector api world elector configured ≡ ok state)

  -- `main` of bin/zerostate.rs ends without a panic exactly if its input is read and imported and the
  -- contracts' code is put into the state, and then the state's cell, its file, which can be read back
  -- with a configuration that passes the checks, and config.json can be made, and both files can be
  -- written; these two writes and the line with the text of config.json are then the last things done.
  pub main_iff :
      (input : String) (config elector : Option String) (h g : List Event)
      → (main api world input config elector h ≡ (ok tt, g)) ↔ (
          (state : api.State) × (h1 : List Event) × Prepares input config elector h state h1
          × Stores state h1 g)
  unfolding main
  main_iff input config elector h g = (
    λ done. after (lift (unwrap (outcome (world.read_to_string input)))) _ h done refl λ json e1 d1.
        after_all (io_unwrap (import_zerostate api world json)) _ h d1 λ imported h1 e2 d2.
          after (lift (update_config api world config imported)) _ h1 d2 refl λ configured e3 d3.
            after (lift (update_elector api world elector configured)) _ h1 d3 refl λ state e4 d4. (
              state,
              h1,
              (
                json,
                imported,
                configured,
                outcome-eq-ok (world.read_to_string input) (expect-eq-ok _ _ e1),
                io_unwrap-eq-ok api world (import_zerostate api world json) h e2,
                e3,
                e4,
              ),
              write_zero_state-Stores state h1 g
                  (io_unwrap-eq-ok api world (write_zero_state api world state) h1 d4),
            ),
    λ (state, h1, (json, imported, configured, read, made, config_set, elector_set), stores).
        rw (read, made, config_set, elector_set, Stores-write_zero_state state h1 g stores),
  )
