-- ===== src/Console/ConfigParam.antt =====
-- `process_config_param` of bin/console.rs: a parameter of the configuration in a zerostate file.
pub mod Trace
use ever_node_tools.Prelude.{String, ◌<>◌, Option, none, some, List, get_elem?}
use ever_node_tools.Prelude.Int.{ℤ, pos, ltb_ℤ}
use ever_node_tools.Outcome.{Outcome, ok, err, ok_or, fail_if}
use ever_node_tools.Outcome
use ever_node_tools.Io.{Io, pure, lift, perform, map_err, ◌>>=◌, ◌>>◌}
use ever_node_tools.Rust.Word.{Bytes}
use ever_node_tools.Rust.Print.{print_ℤ}
use ever_node_tools.Rust.Utf8.{from_utf8}
use ever_node_tools.Console.Outside.{Api, World, Event, read_file}
use ever_node_tools.Console.Params.{parse_any, parse_int}
use ever_node_tools.Console.Receive.{Reply}
use ever_node_tools.Console.Client.{save}
use ever_node_tools.Console.Election.{path_or}
use ever_node_tools.Console.States.{States, about, find_param}

module _ (api : Api) (world : World api.Answer) (states : States api.Cell) where
  -- `std::fs::read_to_string`
  abbrev pub read_to_string : String → Io Event String
  read_to_string path = do
    bytes ← perform (read_file path) (λ h. world.contents h path)
    lift (ok_or "stream did not contain valid UTF-8" (from_utf8 bytes))

  unfoldable pub process_config_param : List String → Io Event Reply
  process_config_param params = do
    index ← lift (parse_int (get_elem? params 0) "index")
    lift (fail_if (ltb_ℤ index (pos 0)) "<index> must not be a negative integer")
    zerostate ← lift (parse_any (get_elem? params 1) "zerostate.json" ok)
    let path = path_or "config-param.boc" (get_elem? params 2)
    text ←
        map_err (λ e. "Can't read zerostate json file " <> (zerostate <> (" : " <> e)))
          (read_to_string zerostate)
    cell ← lift (find_param states index text)
    data_bytes ←
        lift (Outcome.map_err (λ e. about index "serialize" <> (": " <> e)) (api.write_boc cell))
    map_err (λ e. about index "write" <> (" to file " <> (path <> (": " <> e))))
        (save api world path data_bytes)
    pure ("Config param " <> (print_ℤ index <> (" saved to path " <> path)), data_bytes)
