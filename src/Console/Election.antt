-- ===== src/Console/Election.antt =====
-- `process_election_bid` of bin/console.rs: the keys that the node makes, the signature, and the
-- message that is written. The function is cut where it first talks to the node, before it asks for
-- the signature and before it writes the message; `check_bid` is what stands before.
pub mod Steps
pub mod Trace
pub mod Whole
pub mod Answers
pub mod Recover
pub mod Files
use ever_node_tools.Prelude.{
  ℕ, ◌*◌, String, ◌<>◌, Option, none, some, List, [], ◌∷◌, ◌++◌, length, get_elem?,
}
use ever_node_tools.Prelude.Int.{ℤ}
use ever_node_tools.Io.{Io, pure, lift, ◌>>=◌, ◌>>◌}
use ever_node_tools.Rust.Word.{Bytes, to_u32, as_u64, to_be_bytes}
use ever_node_tools.Rust.Print.{print_ℤ}
use ever_node_tools.Console.Outside.{Api, World, Event}
use ever_node_tools.Console.Params.{try_into_32}
use ever_node_tools.Console.Send.{now}
use ever_node_tools.Console.Receive.{Reply}
use ever_node_tools.Console.Client.{save, process_command}
use ever_node_tools.Console.Bid.{Config, Bid, check_bid}
use ever_node_tools.Console.Message.{
  Keys, bytes_to_sign, signed_body, recover_body, cell_of, signed_cell,
}

-- `unwrap_or` of the path
abbrev pub path_or : String → Option String → String
path_or path none = path
path_or _ (some path) = path

module _ (api : Api) (world : World api.Answer) where
  unfoldable pub make_keys : Bid → Io Event Keys
  make_keys bid = do
    new_perm ← process_command api world "newkey" []
    let perm = api.hex_encode_upper new_perm.1
    exported ← process_command api world "exportpub" (perm ∷ [])
    process_command api world "addpermkey"
        (perm ∷ print_ℤ bid.elect_time ∷ print_ℤ bid.expire_time ∷ [])
    process_command api world "addtempkey" (perm ∷ perm ∷ print_ℤ bid.expire_time ∷ [])
    new_adnl ← process_command api world "newkey" []
    let adnl = api.hex_encode_upper new_adnl.1
    process_command api world "addadnl" (adnl ∷ "0" ∷ [])
    process_command api world "addvalidatoraddr" (perm ∷ adnl ∷ print_ℤ bid.elect_time ∷ [])
    pure (record { perm = new_perm.1; pub_key = exported.1; adnl = new_adnl.1 })

  unfoldable pub sign_bid : Bid → Keys → Io Event Bytes
  sign_bid bid keys = do
    let bytes = bytes_to_sign bid keys
    signed ←
        process_command api world "sign"
          (api.hex_encode_upper keys.perm ∷ api.hex_encode_upper bytes ∷ [])
    pub_key ← lift (try_into_32 keys.pub_key)
    lift (api.verify pub_key bytes signed.1)
    pure signed.1

  -- the message body as a bag of cells in a file, as `process_recover_stake` ends too
  unfoldable pub write_body : api.Cell → String → Io Event Reply
  write_body body path = do
    bytes ← lift (api.write_boc body)
    save api world path bytes
    pure ("Message body is " <> (api.base64_encode bytes <> (" saved to path " <> path)), bytes)

  unfoldable pub write_bid : Bid → Keys → Bytes → String → Io Event Reply
  write_bid bid keys signature path = do
    time ← now api world
    cell ← lift (signed_cell api (signed_body (as_u64 time) bid keys) signature)
    write_body cell path

  unfoldable pub process_election_bid : Config api.F32 → List String → Io Event Reply
  process_election_bid config params = do
    bid ← lift (check_bid api config params)
    keys ← make_keys bid
    signature ← sign_bid bid keys
    write_bid bid keys signature (path_or "validator-query.boc" (get_elem? params 2))

  -- recover-stake.fif
  unfoldable pub process_recover_stake : List String → Io Event Reply
  process_recover_stake params = do
    time ← now api world
    cell ← lift (cell_of api (recover_body (as_u64 time)))
    write_body cell (path_or "recover-query.boc" (get_elem? params 0))
