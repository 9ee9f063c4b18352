-- ===== src/AdnlResolve/KeyId.antt =====
-- The id that bin/adnl_resolve.rs looks for (line 51), from the first argument.
use ever_node_tools.Prelude.{String, ltb, take, length, if◌then◌else◌}
use ever_node_tools.Outcome.{Outcome, ok, panic, ◌>>=◌}
use ever_node_tools.Rust.Word.{Bytes}
use ever_node_tools.AdnlResolve.Dht.{Api, World, outcome}

-- `[..32]`
abbrev pub first_32 : Bytes → Outcome Bytes
first_32 bytes =
    if ltb (length bytes) 32 then panic "range end index out of range" else ok (take 32 bytes)

module _ (api : Api) (world : World api) where
  unfoldable pub key_id : String → Outcome Bytes
  key_id adnlid = do bytes ← outcome (world.base64_decode adnlid); first_32 bytes
