-- ===== src/Zerostate/Files.antt =====
-- The names of the files that bin/zerostate.rs writes, however it ends.
use ever_node_tools.Prelude.{ℕ, String, ◌<>◌, ◌≡◌, refl, Option, List, [], ◌∷◌, All}
use ever_node_tools.Prelude.Int.{ℤ}
use ever_node_tools.Outcome.{Outcome, ok, panic, err, outcome, expect_some, ended}
use ever_node_tools.Io.{Io, lift, perform, continue, ◌>>=◌}
use ever_node_tools.Zerostate.Api.{Api, World, Event, write, write_text, println, fs_write}
use ever_node_tools.Zerostate.Import.{
  boc_name, set_workchain, set_workchains, set_validators, set_extra, import_zerostate, ApiDescr,
  with_config, empty_state, with_hashes,
}
use ever_node_tools.Zerostate.Write.{
  unwrap, io_unwrap, check_state, config_json, write_zero_state, update_config, update_elector,
  main,
}

module _ (api : Api) (world : World) where
  -- A file of bytes has the name that the hash of these bytes gives.
  abbrev pub IsNamed : Event → Type 0
  IsNamed (write name bytes) = name ≡ api.lower_hex (api.calc_file_hash bytes) <> ".boc"
  IsNamed (write_text name text) = name ≡ "config.json"
  IsNamed (println text) = Unit

  abbrev pub Named : List Event → Type 0
  Named = All IsNamed

  -- The call keeps the names, whatever its outcome is.
  unfoldable Keeps : {A : Type 0} → Io Event A → Type 0
  Keeps m = (h : List Event) → Named h → Named (m h).1

  Keeps-continue :
      {A B : Type 0} (r : Outcome A) (f : A → Io Event B) (h : List Event)
      → Named h
      → ((a : A) → Keeps (f a))
      → Named (continue r f h).1
  unfolding Keeps
  Keeps-continue (ok a) f h named keep = keep a h named
  Keeps-continue (err e) f h named keep = named
  Keeps-continue (panic e) f h named keep = named

  Keeps->>= :
      {A B : Type 0} (m : Io Event A) (f : A → Io Event B)
      → Keeps m
      → ((a : A) → Keeps (f a))
      → Keeps (m >>= f)
  unfolding Keeps
  Keeps->>= m f first rest h named = Keeps-continue (m h).0 f (m h).1 (first h named) rest

  -- the same behind a call without effects
  Keeps-lift :
      {A B : Type 0} (r : Outcome A) (f : A → Io Event B)
      → ((a : A) → Keeps (f a))
      → Keeps (lift r >>= f)
  unfolding Keeps
  Keeps-lift r f rest h named = Keeps-continue r f h named rest

  Keeps-quiet : {A : Type 0} (r : Outcome A) → Keeps (lift r)
  unfolding Keeps
  Keeps-quiet r h named = named

  Keeps-event :
      {A : Type 0} (event : Event) (answer : List Event → Outcome A)
      → IsNamed event
      → Keeps (perform event answer)
  unfolding Keeps
  Keeps-event event answer named h earlier = (named, earlier)

  Keeps-unwrap : {A : Type 0} (m : Io Event A) → Keeps m → Keeps (io_unwrap m)
  unfolding Keeps
  Keeps-unwrap m keep = keep

  set_workchains-Keeps :
      (mc_zero_state : api.State) (now : ℕ) (visited : List (ℤ × ApiDescr api world))
      (workchains : api.Workchains)
      → Keeps (set_workchains api world mc_zero_state now visited workchains)
  unfolding set_workchains set_workchain boc_name
  set_workchains-Keeps mc_zero_state now [] workchains = Keeps-quiet (ok workchains)
  set_workchains-Keeps mc_zero_state now ((workchain_id, descr) ∷ other) workchains =
      Keeps->>= _ _
        (Keeps-lift (outcome (api.with_tagged_prefix workchain_id api.shard_full)) _ λ shard.
          Keeps-lift (outcome (api.serialize (empty_state api world mc_zero_state now shard))) _
            λ cell. Keeps-lift (outcome (api.write_boc cell)) _ λ bytes.
              Keeps-lift
                (outcome (api.set workchain_id (with_hashes api world descr cell bytes) workchains))
                _
                λ workchains'.
                  Keeps->>= _ _ (Keeps-event _ _ refl) λ done. Keeps-quiet (ok workchains'))
        λ workchains'. set_workchains-Keeps mc_zero_state now other workchains'

  import-Keeps : (json : String) → Keeps (import_zerostate api world json)
  unfolding import_zerostate set_extra
  import-Keeps json = Keeps-lift (outcome (api.from_str json)) _ λ map.
      Keeps-lift (outcome (api.parse_state map)) _ λ mc_zero_state.
        Keeps-lift (outcome (api.read_custom mc_zero_state)) _ λ custom.
          Keeps-lift (expect_some "must be in mc state" custom) _ λ extra.
            Keeps-lift (outcome (api.workchains extra.config)) _ λ workchains.
              Keeps->>= _ _ (set_workchains-Keeps mc_zero_state _ _ workchains) λ workchains'.
                Keeps-lift (ended (api.entries workchains).1) _ λ done.
                  Keeps-lift (outcome (api.set_config_12 workchains' extra.config)) _ λ config.
                    Keeps-lift (set_validators api world _ (with_config api world extra config)) _
                      λ extra'. Keeps-quiet _

  write-Keeps : (mc_zero_state : api.State) → Keeps (write_zero_state api world mc_zero_state)
  unfolding write_zero_state boc_name
  write-Keeps mc_zero_state = Keeps-lift (unwrap (outcome (api.serialize mc_zero_state))) _ λ cell.
      Keeps-lift (unwrap (outcome (api.write_boc cell))) _ λ bytes.
        let hash = api.calc_file_hash bytes in
        let boc : Event = write (boc_name api world hash) bytes in
        Keeps->>= (io_unwrap (fs_write world boc)) _
          (Keeps-unwrap (fs_write world boc)
            (Keeps-event boc (λ h. outcome (world.write_answer h boc)) refl))
          λ done. Keeps-lift (check_state api bytes) _ λ checked.
            Keeps-lift (outcome (api.to_string_pretty (config_json api cell hash))) _ λ json.
              Keeps->>= (fs_write world (write_text "config.json" json)) _
                (Keeps-event (write_text "config.json" json)
                  (λ h. outcome (world.write_answer h (write_text "config.json" json))) refl)
                λ done'. Keeps-event (println json) (λ h. ok tt) tt

  -- Whatever the outside answers, and whether `main` of bin/zerostate.rs ends normally or in a
  -- panic: if the files written before have the right names, then afterwards every file of bytes
  -- has the name that the hash of its own bytes gives, and every other file is config.json.
  pub main-Named :
      (input : String) (config elector : Option String) (h : List Event)
      → Named h
      → Named (main api world input config elector h).1
  unfolding main Keeps
  main-Named input config elector =
      Keeps-lift (unwrap (outcome (world.read_to_string input))) _ λ json.
        Keeps->>= (io_unwrap (import_zerostate api world json)) _
          (Keeps-unwrap (import_zerostate api world json) (import-Keeps json))
          λ imported. Keeps-lift (update_config api world config imported) _ λ configured.
            Keeps-lift (update_elector api world elector configured) _
              λ elected. Keeps-unwrap (write_zero_state api world elected) (write-Keeps elected)
