-- ===== src/Console/Bid/Accepts.antt =====
-- Which parameters pass the checks of `process_election_bid` in bin/console.rs.
use ever_node_tools.Prelude.{String, ◌≡◌, ◌↔◌, sym, false, ◌||◌, Option, List, get_elem?, arith}
use ever_node_tools.Prelude.Int.{ℤ, pos, ◌<ℤ◌, leb_ℤ}
use ever_node_tools.Outcome.{ok, ok_or, ok-injective, after, after_check}
use ever_node_tools.Rust.Word.{Bytes}
use mathlib.Core.Path.{subst}
use ever_node_tools.Console.Outside.{Api}
use ever_node_tools.Console.Params.{parse_any, parse_int}
use ever_node_tools.Console.Bid.{Config, Bid, parse_wallet, check_bid}
use ever_node_tools.Console.Bid.Laws.{IsChecked, Wallet, check_bid-IsChecked}

module _ (api : Api) where
  -- The two times of a bid are the first two parameters.
  abbrev pub Times : List String → Bid → Type 0
  Times params bid =
      (parse_int (get_elem? params 0) "elect_time" ≡ ok bid.elect_time)
      × (parse_int (get_elem? params 1) "expire_time" ≡ ok bid.expire_time)

  check_bid-Times :
      (config : Config api.F32) (params : List String) {bid : Bid}
      → check_bid api config params ≡ ok bid
      → Times params bid
  unfolding check_bid
  check_bid-Times config params h =
      after (parse_any config.wallet_id "wallet_id" (parse_wallet api)) _ h λ wallet_id _ h1.
        after (parse_int (get_elem? params 0) "elect_time") _ h1 λ elect is_elect h2.
          after_check (leb_ℤ elect (pos 0)) "<elect-utime> must be a positive integer" _ h2 λ _ h3.
            after (parse_int (get_elem? params 1) "expire_time") _ h3 λ expire is_expire h4.
              after_check (leb_ℤ expire elect) "<expire-utime> must be a grater than elect_time" _
                h4
                λ _ h5.
                  after (ok_or "you must give max_factor as real" config.max_factor) _ h5 λ f _ h6.
                    after_check (api.f32_lt f (api.f32 1) || api.f32_lt (api.f32 100) f)
                      "<max-factor> must be a real number 1..100" _ h6
                      λ _ h7. subst (Times params) (ok-injective h7) (is_elect, is_expire)

  parse_any-masterchain :
      (param : Option String) (bytes : Bytes)
      → Wallet api param bytes
      → parse_any param "wallet_id" (parse_wallet api) ≡ ok bytes
  unfolding parse_any parse_wallet
  parse_any-masterchain param bytes (text, hex_text, given, stripped, decoded) =
      rw (given, stripped, parse_wallet, decoded)

  leb_not : (a b : ℤ) → b <ℤ a → leb_ℤ a b ≡ false
  leb_not a b h = ground arith

  -- The checks accept exactly the bids whose times are the first two parameters, positive and in order,
  -- whose wallet is the hex after -1: of the configured one, and whose factor is the configured one, from
  -- 1 to 100, scaled by 65536.
  pub check_bid_iff :
      (config : Config api.F32) (params : List String) (bid : Bid)
      → (check_bid api config params ≡ ok bid) ↔ (Times params bid × IsChecked api config bid)
  unfolding check_bid
  check_bid_iff config params bid = (
    λ h. (check_bid-Times config params h, check_bid-IsChecked api config params h),
    λ ((elect, expire), c).
        let (f, given, above, below, scaled) = c.factor in
        rw
          (
            parse_any-masterchain config.wallet_id bid.wallet_id c.wallet,
            elect,
            leb_not bid.elect_time (pos 0) c.elect_positive,
            expire,
            leb_not bid.expire_time bid.elect_time c.expires_later,
            given,
            above,
            below,
          )
          (λ i. ok (record bid { max_factor = sym scaled i })),
  )
