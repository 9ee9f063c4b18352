-- ===== src/Console/Send/Bounds.antt =====
-- The bounds that bin/console.rs checks on parameters of the requests.
use ever_node_tools.Prelude.{
  String, ◌≡◌, refl, sym, ap, Bool, if◌then◌else◌, true, false, List, get_elem?, length, arith,
}
use ever_node_tools.Prelude.Int.{ℤ, pos, ◌≤ℤ◌}
use ever_node_tools.Outcome.{ok}
use ever_node_tools.Io.{lift, fail, pure, >>=-eq-ok}
use ever_node_tools.Rust.Word.{Bytes}
use ever_node_tools.Console.Outside.{Api, World, Event, add_adnl_id}
use ever_node_tools.Console.Params.{parse_int, parse_int256}
use ever_node_tools.Console.Params.Laws.{length-parse_int256}
use ever_node_tools.Console.Command.{Command}
use ever_node_tools.Console.Send.{Query, send}

module _ (api : Api) (world : World api.Answer) where
  allowed :
      (refuse : Bool) (e : String) (q query : Query api) (h h' : List Event)
      → (if refuse then fail e else pure q) h ≡ (ok query, h')
      → (refuse ≡ false) × (query ≡ q) × (h' ≡ h)
  allowed true e q query h h' done = cc (ap (λ p. p.0) done)
  allowed false e q query h h' done = (refl, cc (ap (λ p. p.0) done), sym (ap (λ p. p.1) done))

  -- An address request that `addadnl` makes.
  abbrev pub IsAdnl : Query api → Type 0
  IsAdnl query =
      (hash : Bytes) × (category : ℤ) × (query ≡ add_adnl_id hash category)
      × (length hash ≡ 32)
      × (pos 0 ≤ℤ category)
      × (category ≤ℤ pos 15)

  -- The request that `addadnl` makes of its parameters has a hash of 32 bytes and a category from 0
  -- to 15; nothing is done outside to make it.
  pub send_addadnl_bounds :
      (params : List String) (h : List Event) {query : Query api} {h' : List Event}
      → send api world Command.add_adnl_addr params h ≡ (ok query, h')
      → IsAdnl query × (h' ≡ h)
  unfolding send
  send_addadnl_bounds params h done =
      let (hash, is_hash, r1) =
        >>=-eq-ok (lift (parse_int256 api.codec (get_elem? params 0) "key_hash")) _ h done in
      let (category, is_category, r2) =
        >>=-eq-ok (lift (parse_int (get_elem? params 1) "category")) _ h r1 in
      let (fits, made, same) = allowed _ _ _ _ h _ r2 in
      (
        (
          hash,
          category,
          made,
          length-parse_int256 api.codec _ _ is_hash,
          ground arith,
          ground arith,
        ),
        same,
      )
