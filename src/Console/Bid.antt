-- ===== src/Console/Bid.antt =====
-- The checks at the start of `process_election_bid` in bin/console.rs, before the node is asked
-- anything.
pub mod Laws
pub mod Accepts
use ever_node_tools.Prelude.{ℕ, String, ◌||◌, Option, none, some, List, get_elem?}
use ever_node_tools.Prelude.Int.{ℤ, pos, leb_ℤ}
use ever_node_tools.Outcome.{Outcome, ok, err, ok_or, fail_if, ◌>>=◌, ◌>>◌}
use ever_node_tools.Rust.Str.{strip_prefix}
use ever_node_tools.Rust.Word.{Bytes}
use ever_node_tools.Console.Outside.{Api}
use ever_node_tools.Console.Params.{parse_any, parse_int}

-- `AdnlConsoleConfigJson` without the section for the connection
pub record Config (F32 : Type 0) : Type 0 where
  pub wallet_id : Option String
  pub max_factor : Option F32

-- What the checks give.
pub record Bid : Type 0 where
  pub wallet_id : Bytes
  pub elect_time : ℤ
  pub expire_time : ℤ
  pub max_factor : ℕ

module _ (api : Api) where
  unfoldable pub parse_wallet : String → Outcome Bytes
  unfolding strip_prefix
  parse_wallet value = elim (strip_prefix "-1:" value) [
    | some stripped ↦ api.hex_decode stripped
    | none ↦ err "use masterchain wallet"
  ]

  unfoldable pub check_bid : Config api.F32 → List String → Outcome Bid
  check_bid config params = do
    wallet_id ← parse_any config.wallet_id "wallet_id" parse_wallet
    elect_time ← parse_int (get_elem? params 0) "elect_time"
    fail_if (leb_ℤ elect_time (pos 0)) "<elect-utime> must be a positive integer"
    expire_time ← parse_int (get_elem? params 1) "expire_time"
    fail_if (leb_ℤ expire_time elect_time) "<expire-utime> must be a grater than elect_time"
    max_factor ← ok_or "you must give max_factor as real" config.max_factor
    fail_if (api.f32_lt max_factor (api.f32 1) || api.f32_lt (api.f32 100) max_factor)
        "<max-factor> must be a real number 1..100"
    ok (record {
      wallet_id = wallet_id;
      elect_time = elect_time;
      expire_time = expire_time;
      max_factor = api.f32_as_u32 (api.f32_mul max_factor (api.f32 65536));
    })
