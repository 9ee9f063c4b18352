-- ===== src/Console/Params/Decimal.antt =====
-- Which integers bin/console.rs accepts as a parameter.
use ever_node_tools.Prelude.{◌^◌, String, ◌≡◌, ◌↔◌, some}
use ever_node_tools.Prelude.Int.{ℤ}
use ever_node_tools.Outcome.{ok, map_err-eq-ok}
use ever_node_tools.Rust.Word.{InRange}
use ever_node_tools.Rust.Str.{trim_quotes}
use ever_node_tools.Rust.Decimal.{Denotes, parse_signed-Denotes, parse_signed-accepts}
use ever_node_tools.Console.Params.{parse_int}
use ever_node_tools.Console.Params.Laws.{parse_int-InRange}

-- A parameter is accepted as an integer exactly if, without the quotation marks around it, it is a
-- numeral of at least one digit with at most one sign, which stands for this integer by the places of
-- its digits, and the integer is in the range of 32 bits.
pub parse_int_iff :
    (value name : String) (z : ℤ)
    → (parse_int (some value) name ≡ ok z) ↔ (Denotes (trim_quotes value) z × InRange (2 ^ 31) z)
unfolding parse_int
parse_int_iff value name z = (
  λ accepted. (
    parse_signed-Denotes (2 ^ 31) (trim_quotes value) (map_err-eq-ok _ _ accepted),
    parse_int-InRange (some value) name accepted,
  ),
  λ (denotes, fits). rw (parse_signed-accepts (2 ^ 31) (trim_quotes value) z denotes fits),
)
