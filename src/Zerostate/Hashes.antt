-- ===== src/Zerostate/Hashes.antt =====
-- What import_zerostate of bin/zerostate.rs promises of the hashes in the state's configuration.
use mathlib.Core.Path.{subst}
use ever_node_tools.Prelude.{
  ℕ, String, ◌<>◌, ◌≡◌, ◌≢◌, ◌⊎◌, inl, inr, refl, sym, ap, ◌∙◌, true, Option, some, List, [], ◌∷◌,
  All,
}
use ever_node_tools.Prelude.Int.{ℤ}
use ever_node_tools.Outcome.{Outcome, ok, outcome, expect_some, ended, outcome-eq-ok}
use ever_node_tools.Outcome
use ever_node_tools.Rust.Word.{Bytes}
use ever_node_tools.Io.{lift, after, after_call, after_all, returned}
use ever_node_tools.Zerostate.Api.{Api, World, Descr, Extra, Event, write, fs_write}
use ever_node_tools.Zerostate.Import.{
  boc_name, set_workchain, set_workchains, set_validators, set_extra, import_zerostate, ApiDescr,
  ApiExtra, with_config, empty_state, with_hashes,
}

-- What ton_block documents of the maps and of the parts of a state that are read back.
pub record Laws (api : Api) : Type 0 where
  pub get : ℤ → api.Workchains → Option (Descr api.DescrOther)
  pub get-set :
      (id : ℤ) (descr : Descr api.DescrOther) (w w' : api.Workchains)
      → api.set id descr w ≡ inr w'
      → get id w' ≡ some descr
  pub get-set_other :
      (id other : ℤ) (descr : Descr api.DescrOther) (w w' : api.Workchains)
      → api.set id descr w ≡ inr w'
      → other ≢ id
      → get other w' ≡ get other w
  pub workchains-set_config_12 :
      (w : api.Workchains) (config config' : api.Config)
      → api.set_config_12 w config ≡ inr config'
      → api.workchains config' ≡ inr w
  pub read_custom-write_custom :
      (extra : Extra api.Config api.ExtraOther) (state state' : api.State)
      → api.write_custom (some extra) state ≡ inr state'
      → api.read_custom state' ≡ inr (some extra)

abbrev pub Happened : Event → List Event → Type 0
Happened event [] = ⊥
Happened event (latest ∷ h) = (latest ≡ event) ⊎ Happened event h

module _ {D : Type 0} where
  -- No two entries have the same id.
  abbrev pub UniqueIds : List (ℤ × D) → Type 0
  UniqueIds [] = Unit
  UniqueIds ((id, descr) ∷ other) = All (λ (e : ℤ × D). id ≢ e.0) other × UniqueIds other

module _ (api : Api) (world : World) (laws : Laws api) (mc_zero_state : api.State) where
  abbrev pub now : ℕ
  now = api.gen_time mc_zero_state

  -- The workchain has a description that is as before but for the hashes; these are those of the
  -- cell of the workchain's empty state, and of a file that was written with this cell.
  abbrev pub Described : List Event → api.Workchains → ℤ × ApiDescr api world → Type 0
  Described g w (id, descr) =
      (shard : api.Shard) × (cell : api.Cell) × (bytes : Bytes) × (api.with_tagged_prefix id
          api.shard_full
        ≡ inr shard)
      × (api.serialize (empty_state api world mc_zero_state now shard) ≡ inr cell)
      × (api.write_boc cell ≡ inr bytes)
      × (laws.get id w
          ≡ some (record {
            zerostate_root_hash = api.repr_hash cell;
            zerostate_file_hash = api.calc_file_hash bytes;
            other = descr.other;
          }))
      × Happened (write (api.lower_hex (api.calc_file_hash bytes) <> ".boc") bytes) g

  -- What one workchain changes.
  unfoldable Sets :
      List Event → List Event → api.Workchains → api.Workchains → ℤ × ApiDescr api world → Type 0
  Sets h g w w' (id, descr) =
      Described g w' (id, descr)
      × ((event : Event) → Happened event h → Happened event g)
      × ((other : ℤ) → other ≢ id → laws.get other w' ≡ laws.get other w)

  set_workchain-Sets :
      (id : ℤ) (descr : ApiDescr api world) (w w' : api.Workchains) (h g : List Event)
      → set_workchain api world mc_zero_state now id descr w h ≡ (ok w', g)
      → Sets h g w w' (id, descr)
  unfolding set_workchain Sets with_hashes boc_name
  set_workchain-Sets id descr w w' h g done =
      after_call (api.with_tagged_prefix id api.shard_full) _ h done λ shard e1 d1.
        after_call (api.serialize (empty_state api world mc_zero_state now shard)) _ h d1
          λ cell e2 d2. after_call (api.write_boc cell) _ h d2 λ bytes e3 d3.
            let hashed = with_hashes api world descr cell bytes in
            let boc = write (boc_name api world (api.calc_file_hash bytes)) bytes in
            after_call (api.set id hashed w) _ h d3 λ next e4 d4.
              after (fs_write world boc) _ h d4 refl λ written e5 d5.
                returned (λ v g'. Sets h g' w v (id, descr)) d5
                  (
                    (shard, cell, bytes, e1, e2, e3, laws.get-set id hashed w next e4, inl refl),
                    (λ event before. inr before),
                    (λ other differs. laws.get-set_other id other hashed w next e4 differs),
                  )

  -- What happens later does not undo it.
  Described-later :
      (h g : List Event) (w w' : api.Workchains) (e : ℤ × ApiDescr api world)
      → Described h w e
      → ((event : Event) → Happened event h → Happened event g)
      → laws.get e.0 w' ≡ laws.get e.0 w
      → Described g w' e
  Described-later h g w w' e (shard, cell, bytes, e1, e2, e3, got, wrote) keep same =
      (shard, cell, bytes, e1, e2, e3, same ∙ got, keep _ wrote)

  -- What all of them change.
  unfoldable AllSet :
      List Event
      → List Event
      → api.Workchains
      → api.Workchains
      → List (ℤ × ApiDescr api world)
      → Type 0
  AllSet h g w w' visited =
      All (Described g w') visited
      × ((event : Event) → Happened event h → Happened event g)
      × ((other : ℤ)
          → All (λ (e : ℤ × ApiDescr api world). other ≢ e.0) visited
          → laws.get other w' ≡ laws.get other w)

  set_workchains-AllSet :
      (visited : List (ℤ × ApiDescr api world)) (w w' : api.Workchains) (h g : List Event)
      → UniqueIds visited
      → set_workchains api world mc_zero_state now visited w h ≡ (ok w', g)
      → AllSet h g w w' visited
  unfolding set_workchains AllSet Sets
  set_workchains-AllSet [] w w' h g unique done =
      returned (λ v g'. AllSet h g' w v []) done (tt, (λ event before. before), (λ other new. refl))
  set_workchains-AllSet ((id, descr) ∷ rest) w w' h g (new, unique) done =
      after_all (set_workchain api world mc_zero_state now id descr w) _ h done λ w1 h1 d1 d2.
        let (placed, grown, others) = set_workchain-Sets id descr w w1 h h1 d1 in
        let (all, grown', others') = set_workchains-AllSet rest w1 w' h1 g unique d2 in
        (
          (Described-later h1 g w1 w' (id, descr) placed grown' (others' id new), all),
          (λ event before. grown' event (grown event before)),
          (λ other (differs, new'). others' other new' ∙ others other differs),
        )

  set_validators-config :
      (extra extra' : ApiExtra api world)
      → set_validators api world now extra ≡ ok extra'
      → extra'.config ≡ extra.config
  unfolding set_validators
  set_validators-config extra extra' done =
      Outcome.after (outcome (api.catchain_config extra.config)) _ done λ ccvc e1 d1.
        Outcome.after (outcome (api.validator_set extra.config)) _ d1 λ validators e2 d2.
          Outcome.after (outcome (api.calc_subset validators ccvc _ _ 0 now)) _ d2 λ found e3 d3.
            let same : record {
              config = extra.config;
              validator_info = record {
                validator_list_hash_short = found.1;
                catchain_seqno = 0;
                nx_cc_updated = true;
              };
              other = extra.other;
            }
                ≡ extra' =
              cc in
            sym (ap (λ (e : ApiExtra api world). e.config) same)

  -- What is read back from the state that is returned.
  abbrev pub ReadsBack : api.Workchains → api.State → List Event → Type 0
  ReadsBack w state g =
      (extra' : ApiExtra api world) × (w' : api.Workchains) × (api.read_custom state
        ≡ inr (some extra'))
      × (api.workchains extra'.config ≡ inr w')
      × All (Described g w') (api.entries w).0

  set_extra-ReadsBack :
      (extra : ApiExtra api world) (w : api.Workchains) (state : api.State) (h g : List Event)
      → UniqueIds (api.entries w).0
      → set_extra api world mc_zero_state extra w h ≡ (ok state, g)
      → ReadsBack w state g
  unfolding set_extra AllSet
  set_extra-ReadsBack extra w state h g unique done =
      after_all (set_workchains api world mc_zero_state now (api.entries w).0 w) _ h done
        λ w' h1 d1 d2.
          let (all, grown, others) = set_workchains-AllSet (api.entries w).0 w w' h h1 unique d1 in
          after (lift (ended (api.entries w).1)) _ h1 d2 refl λ last e3 d3.
            after_call (api.set_config_12 w' extra.config) _ h1 d3 λ config e4 d4.
              after (lift (set_validators api world now (with_config api world extra config))) _ h1
                d4 refl
                λ extra' e5 d5.
                  let stored =
                    outcome-eq-ok (api.write_custom (some extra') mc_zero_state)
                      (ap (λ p. p.0) d5) in
                  let kept = set_validators-config (with_config api world extra config) extra' e5 in
                  (
                    extra',
                    w',
                    laws.read_custom-write_custom extra' mc_zero_state state stored,
                    ap api.workchains kept
                        ∙ laws.workchains-set_config_12 w' extra.config config e4,
                    subst (λ k. All (Described k w') (api.entries w).0) (ap (λ p. p.1) d5) all,
                  )

  -- If import_zerostate returns a state for a JSON text that parses to a masterchain state with
  -- these workchains, no two of which have one id, then the configuration that is read back from the
  -- state returned describes each of them as before but for its two hashes. These are the hash of
  -- the root cell of the workchain's empty state, and the hash of a file that was written, under the
  -- name of this hash, with that cell.
  pub import_zerostate-Described :
      (json : String) (map : api.Map) (extra : ApiExtra api world) (w : api.Workchains)
      (state : api.State) (h g : List Event)
      → api.from_str json ≡ inr map
      → api.parse_state map ≡ inr mc_zero_state
      → api.read_custom mc_zero_state ≡ inr (some extra)
      → api.workchains extra.config ≡ inr w
      → UniqueIds (api.entries w).0
      → import_zerostate api world json h ≡ (ok state, g)
      → ReadsBack w state g
  unfolding import_zerostate
  import_zerostate-Described json map extra w state h g e1 e2 e3 e4 unique done =
      set_extra-ReadsBack extra w state h g unique (rw (e1, e2, e3, e4) at done)
