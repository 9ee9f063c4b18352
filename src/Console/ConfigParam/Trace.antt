-- ===== src/Console/ConfigParam/Trace.antt =====
-- `process_config_param` of bin/console.rs as the world sees it.
use ever_node_tools.Prelude.{String, ◌<>◌, ◌≡◌, ◌↔◌, refl, sym, List, ◌∷◌, get_elem?, arith}
use ever_node_tools.Prelude.Int.{ℤ, pos, ltb_ℤ, ◌≤ℤ◌}
use ever_node_tools.Outcome
use ever_node_tools.Io
use ever_node_tools.Outcome.{Outcome, ok, err, panic, ok_or, fail_if, map_err-eq-ok}
use ever_node_tools.Io.{Io, lift, map_err, perform, ◌>>=◌, >>=-eq-ok, after, returned}
use ever_node_tools.Rust.Word.{Bytes}
use ever_node_tools.Rust.Print.{print_ℤ}
use ever_node_tools.Rust.Utf8.{from_utf8}
use ever_node_tools.Console.Outside.{Api, World, Event, read_file, write_file}
use ever_node_tools.Console.Params.{parse_any, parse_int}
use ever_node_tools.Console.Receive.{Reply}
use ever_node_tools.Console.Client.{save}
use ever_node_tools.Console.Election.{path_or}
use ever_node_tools.Console.States.{States, find_param}
use ever_node_tools.Console.ConfigParam.{read_to_string, process_config_param}

module _ (api : Api) (world : World api.Answer) (states : States api.Cell) where
  -- What was found and written.
  abbrev pub Extracted : List String → String → List Event → Reply → List Event → Type 0
  Extracted params path h reply h' =
      (index : ℤ) × (file text : String) × (cell : api.Cell) × (parse_int (get_elem? params 0)
          "index"
        ≡ ok index)
      × (pos 0 ≤ℤ index)
      × (parse_any (get_elem? params 1) "zerostate.json" ok ≡ ok file)
      × ((read_to_string api world states file h).0 ≡ ok text)
      × (find_param states index text ≡ ok cell)
      × (api.write_boc cell ≡ ok reply.1)
      × (world.store (read_file file ∷ h) path reply.1 ≡ ok tt)
      × (reply.0 ≡ "Config param " <> (print_ℤ index <> (" saved to path " <> path)))
      × (h' ≡ write_file path reply.1 ∷ read_file file ∷ h)

  not_negative : (index : ℤ) (e : String) → fail_if (ltb_ℤ index (pos 0)) e ≡ ok tt → pos 0 ≤ℤ index
  not_negative index e passed = ground arith

  read_to_string_trace :
      (file : String) (h : List Event)
      → (read_to_string api world states file h).1 ≡ read_file file ∷ h
  read_to_string_trace file h = read_with (world.contents h file)
    where
      read_with :
          (contents : Outcome Bytes)
          → (Io.continue contents
              (λ bytes. lift (ok_or "stream did not contain valid UTF-8" (from_utf8 bytes)))
              (read_file file ∷ h)).1
            ≡ read_file file ∷ h
      read_with (ok bytes) = refl
      read_with (err e) = refl
      read_with (panic e) = refl

  -- A `config_param` that returns was given an index that is not negative and the file of a
  -- zerostate; it read that file, found the cell of the parameter in its text, and wrote the bag of
  -- cells that it returns to the third parameter's path or to config-param.boc. Nothing else is done
  -- outside; the node is not asked.
  pub process_config_param_trace :
      (params : List String) (h : List Event) {reply : Reply} {h' : List Event}
      → process_config_param api world states params h ≡ (ok reply, h')
      → Extracted params (path_or "config-param.boc" (get_elem? params 2)) h reply h'
  unfolding process_config_param
  process_config_param_trace params h done =
      let path = path_or "config-param.boc" (get_elem? params 2) in
      after (lift (parse_int (get_elem? params 0) "index")) _ h done refl λ index is_index r1.
        after (lift (fail_if (ltb_ℤ index (pos 0)) "<index> must not be a negative integer")) _ _ r1
          refl
          λ _ passed r2.
            after (lift (parse_any (get_elem? params 1) "zerostate.json" ok)) _ _ r2 refl
              λ file is_file r3.
                after (map_err _ (read_to_string api world states file)) _ _ r3
                  (read_to_string_trace file h)
                  λ text read r4.
                    after (lift (find_param states index text)) _ _ r4 refl λ cell found r5.
                      after (lift (Outcome.map_err _ (api.write_boc cell))) _ _ r5 refl
                        λ bytes written r6.
                          after (map_err _ (save api world path bytes)) _ _ r6 refl λ _ stored r7.
                            returned (Extracted params path h) r7 (
                              index,
                              file,
                              text,
                              cell,
                              is_index,
                              not_negative index _ passed,
                              is_file,
                              map_err-eq-ok _ _ read,
                              found,
                              map_err-eq-ok _ _ written,
                              map_err-eq-ok _ _ stored,
                              refl,
                              refl,
                            )

  passes : (index : ℤ) (e : String) → pos 0 ≤ℤ index → fail_if (ltb_ℤ index (pos 0)) e ≡ ok tt
  passes index e fits = ground arith

  -- A `config_param` returns a reply exactly if it is given an index that is not negative and the file
  -- of a zerostate, this can be read, the parameter's cell is found in its text, and the bag of cells
  -- can be made and written to the third parameter's path or to config-param.boc; the reply is then
  -- this bag with the line that tells the index and the path, and nothing else is done outside.
  pub process_config_param_iff :
      (params : List String) (h : List Event) (reply : Reply) (h' : List Event)
      → (process_config_param api world states params h ≡ (ok reply, h'))
        ↔ Extracted params (path_or "config-param.boc" (get_elem? params 2)) h reply h'
  unfolding process_config_param
  process_config_param_iff params h reply h' = (
    process_config_param_trace params h,
    λ (index, file, text, cell, is_index, fits, is_file, read, found, written, stored, line, left).
        rw
          (
            is_index,
            passes index "<index> must not be a negative integer" fits,
            is_file,
            read_to_string_trace file h,
            read,
            found,
            written,
            stored,
          )
          (λ i. (ok (sym line i, reply.1), sym left i)),
  )
