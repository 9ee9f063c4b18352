-- ===== src/Console/Receive/Numbers.antt =====
-- How `getstats` of bin/console.rs shows the statistics that are integers.
use mathlib.Core.List.{map}
use ever_node_tools.Prelude.{
  ◌^◌, String, str_eq, eq_iff, ◌≡◌, refl, ap, inl, inr, Bool-cases, false, some, List, [], ◌∷◌, All,
}
use ever_node_tools.Prelude.Int.{ℤ}
use ever_node_tools.Outcome.{ok}
use ever_node_tools.Rust.Word.{Bytes, InRange}
use ever_node_tools.Rust.Parse.{parse_signed}
use ever_node_tools.Rust.Print.{print_ℤ, parse_signed-print_ℤ}
use ever_node_tools.Console.Outside.{Api, OneStat}
use ever_node_tools.Console.Receive.{stat_value, stats_to_json, receive_stats}

abbrev IsI64 : ℤ → Type 0
IsI64 = InRange (2 ^ 63)

print_ℤ-ne-nil : (z : ℤ) → IsI64 z → str_eq (print_ℤ z) "" ≡ false
unfolding parse_signed
print_ℤ-ne-nil z fits = elim (Bool-cases (str_eq (print_ℤ z) "")) [
  | inl empty ↦
      let nothing : print_ℤ z ≡ "" = (eq_iff (print_ℤ z) "").0 empty in
      let read = parse_signed-print_ℤ (2 ^ 63) z fits in
      let unread : parse_signed (2 ^ 63) "" ≡ ok z = rw nothing at read in cc
  | inr full ↦ full
]

-- a statistic whose text is a decimal integer
abbrev pub integer_stat : String × ℤ → OneStat
integer_stat (key, z) = record { key = key; value = print_ℤ z }

module _ (api : Api) where
  stat_value-print_ℤ : (z : ℤ) → IsI64 z → stat_value api (print_ℤ z) ≡ api.number z
  unfolding stat_value
  stat_value-print_ℤ z fits = rw (print_ℤ-ne-nil z fits, parse_signed-print_ℤ (2 ^ 63) z fits)

  abbrev pub number_field : String × ℤ → String × api.Json
  number_field (key, z) = (key, api.number z)

  fields-print_ℤ :
      (stats : List (String × ℤ))
      → All (λ p. IsI64 p.1) stats
      → map (λ stat. (stat.key, stat_value api stat.value)) (map integer_stat stats)
        ≡ map number_field stats
  fields-print_ℤ [] fits = refl
  fields-print_ℤ ((key, z) ∷ stats) (fits, rest) =
      rw (stat_value-print_ℤ z fits, fields-print_ℤ stats rest)

  stats_to_json-print_ℤ :
      (stats : List (String × ℤ))
      → All (λ p. IsI64 p.1) stats
      → stats_to_json api (map integer_stat stats) ≡ api.object (map number_field stats)
  unfolding stats_to_json
  stats_to_json-print_ℤ stats fits = ap api.object (fields-print_ℤ stats fits)

  -- If the node answers with statistics whose texts are the decimal integers of 64 bits, then
  -- `getstats` shows the object that has each of these integers, as a number, under its key, and gives
  -- the bytes of the answer.
  pub receive_stats-print_ℤ :
      (answer : api.Answer) (bytes : Bytes) (stats : List (String × ℤ))
      → api.serialize_answer answer ≡ ok bytes
      → api.as_stats answer ≡ some (map integer_stat stats)
      → All (λ p. InRange (2 ^ 63) p.1) stats
      → receive_stats api answer ≡ ok (api.pretty (api.object (map number_field stats)), bytes)
  unfolding receive_stats
  receive_stats-print_ℤ answer bytes stats serialized are fits =
      rw (serialized, are, stats_to_json-print_ℤ stats fits)
