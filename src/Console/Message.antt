-- ===== src/Console/Message.antt =====
-- The messages to the elector that bin/console.rs makes: the bytes that are signed, the bodies of
-- the two messages, and their cells.
pub mod Laws
pub mod Unambiguous
use ever_node_tools.Prelude.{ℕ, ◌*◌, ◌++◌, length}
use ever_node_tools.Prelude.Int.{ℤ}
use ever_node_tools.Outcome.{Outcome, ◌>>=◌}
use ever_node_tools.Rust.Word.{Bytes, to_u32, to_be_bytes}
use ever_node_tools.Console.Outside.{Api}
use ever_node_tools.Console.Bid.{Bid}

-- `x.to_be_bytes()` of an `i32`
unfoldable pub be_i32 : ℤ → Bytes
be_i32 z = to_be_bytes 4 (to_u32 z)

-- What the node's keys are, once they are made.
pub record Keys : Type 0 where
  pub perm : Bytes
  pub pub_key : Bytes
  pub adnl : Bytes

-- validator-elect-req.fif
unfoldable pub bytes_to_sign : Bid → Keys → Bytes
bytes_to_sign bid keys =
    to_be_bytes 4 0x654C5074
    ++ (be_i32 bid.elect_time ++ (to_be_bytes 4 bid.max_factor ++ (bid.wallet_id ++ keys.adnl)))

-- validator-elect-signed.fif
unfoldable pub signed_body : ℕ → Bid → Keys → Bytes
signed_body query_id bid keys =
    to_be_bytes 4 0x4E73744B
    ++ (to_be_bytes 8 query_id
        ++ (keys.pub_key ++ (be_i32 bid.elect_time ++ (to_be_bytes 4 bid.max_factor ++ keys.adnl))))

-- recover-stake.fif
unfoldable pub recover_body : ℕ → Bytes
recover_body query_id = to_be_bytes 4 0x47657424 ++ to_be_bytes 8 query_id

module _ (api : Api) where
  -- `BuilderData::with_raw(data, data.len() * 8)?`
  unfoldable pub builder_of : Bytes → Outcome api.Builder
  builder_of bytes = api.with_raw bytes (length bytes * 8)

  unfoldable pub cell_of : Bytes → Outcome api.Cell
  unfolding builder_of
  cell_of bytes = do builder ← builder_of bytes; api.into_cell builder

  -- a body whose one reference is the cell of the signature
  unfoldable pub signed_cell : Bytes → Bytes → Outcome api.Cell
  unfolding builder_of cell_of
  signed_cell bytes signature = do
    body ← builder_of bytes
    signature_cell ← cell_of signature
    whole ← api.append_reference body signature_cell
    api.into_cell whole
