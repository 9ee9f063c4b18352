-- ===== src/Console/Bid/Laws.antt =====
-- What a bid that passes the checks satisfies.
use ever_node_tools.Prelude.{
  String, ◌≡◌, refl, false, ◌||◌, Option, none, some, List, get_elem?, arith,
}
use ever_node_tools.Prelude.Int.{ℤ, pos, ◌<ℤ◌, leb_ℤ}
use ever_node_tools.Outcome.{ok, ok_or, ok-injective, after, after_check, map_err-eq-ok}
use ever_node_tools.Rust.Str.{strip_prefix, trim_quotes}
use ever_node_tools.Rust.Word.{Bytes}
use ever_node_tools.Console.Outside.{Api}
use ever_node_tools.Console.Params.{parse_any, parse_int}
use ever_node_tools.Console.Params.Laws.{parse_int-InRange}
use ever_node_tools.Console.Send.Laws.{IsI32}
use ever_node_tools.Console.Bid.{Config, Bid, parse_wallet, check_bid}
use ever_node_tools.Prelude.{Bool, inl, inr, Option-cases}
use mathlib.Core.Path.{subst}

-- Election and expiry are given in this order and are positive; the wallet is in the masterchain and
-- the factor is in the range.
pub record IsChecked (api : Api) (config : Config api.F32) (bid : Bid) : Type 0 where
  pub elect_fits : IsI32 bid.elect_time
  pub expire_fits : IsI32 bid.expire_time
  pub elect_positive : pos 0 <ℤ bid.elect_time
  pub expires_later : bid.elect_time <ℤ bid.expire_time
  pub factor :
      (f : api.F32) × (config.max_factor ≡ some f)
      × (api.f32_lt f (api.f32 1) ≡ false)
      × (api.f32_lt (api.f32 100) f ≡ false)
      × (bid.max_factor ≡ api.f32_as_u32 (api.f32_mul f (api.f32 65536)))
  pub wallet :
      (text hex_text : String) × (config.wallet_id ≡ some text)
      × (strip_prefix "-1:" (trim_quotes text) ≡ some hex_text)
      × (api.hex_decode hex_text ≡ ok bid.wallet_id)

not_leb : (a b : ℤ) → leb_ℤ a b ≡ false → b <ℤ a
not_leb a b h = ground arith

module _ (api : Api) where
  abbrev pub Wallet : Option String → Bytes → Type 0
  Wallet param bytes =
      (text hex_text : String) × (param ≡ some text)
      × (strip_prefix "-1:" (trim_quotes text) ≡ some hex_text)
      × (api.hex_decode hex_text ≡ ok bytes)

  wallet_lem :
      (param : Option String) {bytes : Bytes}
      → parse_any param "wallet_id" (parse_wallet api) ≡ ok bytes
      → Wallet param bytes
  unfolding parse_any parse_wallet
  wallet_lem none h = cc
  wallet_lem (some text) h =
      let parsed = map_err-eq-ok _ _ h in
      elim (Option-cases (strip_prefix "-1:" (trim_quotes text))) [
        | inl other ↦ cc (rw (other, parse_wallet) at parsed)
        | inr (hex_text, stripped) ↦
            (text, hex_text, refl, stripped, rw (stripped, parse_wallet) at parsed)
      ]

  factor_lem :
      (param : Option api.F32) {f : api.F32}
      → ok_or "you must give max_factor as real" param ≡ ok f
      → param ≡ some f
  factor_lem none h = cc
  factor_lem (some f) h = cc

  or_false : (a b : Bool) → (a || b) ≡ false → (a ≡ false) × (b ≡ false)
  or_false a b h = ground arith

  -- A bid that the checks accept has times of 32 bits, positive and in order, a wallet that is the
  -- hex after -1: of the configured one, and the configured factor, from 1 to 100 and scaled by
  -- 65536.
  pub check_bid-IsChecked :
      (config : Config api.F32) (params : List String) {bid : Bid}
      → check_bid api config params ≡ ok bid
      → IsChecked api config bid
  unfolding check_bid
  check_bid-IsChecked config params {bid} h =
      after (parse_any config.wallet_id "wallet_id" (parse_wallet api)) _ h
        λ wallet_id is_wallet h1.
          after (parse_int (get_elem? params 0) "elect_time") _ h1 λ elect is_elect h2.
            after_check (leb_ℤ elect (pos 0)) "<elect-utime> must be a positive integer" _ h2
              λ positive h3.
                after (parse_int (get_elem? params 1) "expire_time") _ h3 λ expire is_expire h4.
                  after_check (leb_ℤ expire elect) "<expire-utime> must be a grater than elect_time"
                    _ h4
                    λ later h5.
                      after (ok_or "you must give max_factor as real" config.max_factor) _ h5
                        λ f is_f h6.
                          after_check (api.f32_lt f (api.f32 1) || api.f32_lt (api.f32 100) f)
                            "<max-factor> must be a real number 1..100" _ h6
                            λ in_range h7.
                              let (above, below) = or_false _ _ in_range in
                              let (text, hex_text, given, stripped, decoded) =
                                wallet_lem config.wallet_id is_wallet in
                              subst (IsChecked api config) (ok-injective h7) (record {
                                elect_fits = parse_int-InRange _ _ is_elect;
                                expire_fits = parse_int-InRange _ _ is_expire;
                                elect_positive = not_leb elect (pos 0) positive;
                                expires_later = not_leb expire elect later;
                                factor = (f, factor_lem config.max_factor is_f, above, below, refl);
                                wallet = wallet_lem config.wallet_id is_wallet;
                              })
