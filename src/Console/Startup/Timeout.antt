-- ===== src/Console/Startup/Timeout.antt =====
-- Which timeouts `main` of bin/console.rs accepts.
use ever_node_tools.Prelude.{ℕ, ◌-◌, ◌*◌, ◌^◌, ◌≤◌, String, ◌≡◌, ◌↔◌, sym, some}
use ever_node_tools.Outcome.{ok, after, expect, ok-injective, expect-eq-ok}
use ever_node_tools.Rust.Parse.{parse_unsigned}
use ever_node_tools.Rust.Decimal.{Counts, parse_unsigned-Counts, parse_unsigned-accepts}
use ever_node_tools.Console.Outside.{Api, World}
use ever_node_tools.Console.Startup.{Connection, read_timeout}

module _ (api : Api) (world : World api.Answer) (connection : Connection api.F32) where
  -- A timeout is accepted exactly if it is a numeral of at least one digit, with a plus sign or none,
  -- for a number below 2 ^ 64 by the places of its digits; the pause is then as many microseconds,
  -- each of them a thousand nanoseconds.
  pub read_timeout_iff :
      (text : String) (nanoseconds : ℕ)
      → (read_timeout api world connection (some text) ≡ ok nanoseconds)
        ↔ ((n : ℕ) × Counts text n × (n ≤ 2 ^ 64 - 1) × (nanoseconds ≡ n * 1000))
  unfolding read_timeout
  read_timeout_iff text nanoseconds = (
    λ done. after (expect _ (parse_unsigned (2 ^ 64 - 1) text)) _ done λ n read same.
        let (counts, fits) = parse_unsigned-Counts (2 ^ 64 - 1) text (expect-eq-ok _ _ read) in
        (n, counts, fits, sym (ok-injective same)),
    λ (n, counts, fits, value). rw (parse_unsigned-accepts (2 ^ 64 - 1) text n counts fits, value),
  )
