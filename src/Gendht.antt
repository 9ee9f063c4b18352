-- ===== src/Gendht.antt =====
-- bin/gendht.rs: the signed description of a DHT node with a given address and key.
pub mod Prints
use ever_node_tools.Prelude.{ℕ, String, ◌<>◌, ◌≡◌, refl, List, [], ◌∷◌}
use ever_node_tools.Outcome.{
  Outcome, ok, err, panic, expect, Result, outcome, IsCalm, IsCalm->>=, outcome-IsCalm,
}
use ever_node_tools.Outcome
use ever_node_tools.Json.{Json}
use ever_node_tools.DhtNode.{NodeApi, describe, describe-IsCalm}

-- What the program calls of adnl and dht, and the tests' macros for the text of a configuration.
pub record Api : Type 1 where
  pub nodes : NodeApi
  pub node_test_config : String → String → String
  pub Config : Type 0
  pub from_json : String → Result Config
  pub Adnl : Type 0
  pub with_config : Config → Result Adnl
  pub Dht : Type 0
  pub with_adnl_node : Adnl → ℕ → Result Dht
  pub get_signed_node : Dht → Result nodes.Node
  pub to_string_pretty : Json → Result String

module _ (api : Api) where
  abbrev unwrap : {A : Type 0} → Result A → Outcome A
  unwrap r = expect "called `Result::unwrap()` on an `Err` value" (outcome r)

  -- the chain of `unwrap`s
  unfoldable pub signed_node : String → String → Outcome api.nodes.Node
  signed_node ip dht_key_enc =
      Outcome.◌>>=◌ (unwrap (api.from_json (api.node_test_config ip dht_key_enc))) λ config.
        Outcome.◌>>=◌ (unwrap (api.with_config config)) λ adnl.
          Outcome.◌>>=◌ (unwrap (api.with_adnl_node adnl 1)) λ dht. unwrap (api.get_signed_node dht)

  -- the text that `gen` prints
  unfoldable pub gen : String → String → Outcome String
  unfolding signed_node
  gen ip dht_key_enc = Outcome.◌>>=◌ (signed_node ip dht_key_enc) λ node.
      Outcome.◌>>=◌ (outcome (api.nodes.key_of node)) λ key.
        Outcome.◌>>=◌ (describe api.nodes node key) λ json. outcome (api.to_string_pretty json)

  -- `unwrap_or_else`: the line that is printed
  abbrev pub line : Outcome String → Outcome String
  line (ok text) = ok text
  line (err e) = ok ("gen error: " <> e)
  line (panic e) = panic e

  abbrev pub usage : String
  usage = "Usage: gendht <ip:port> <private DHT key in base64>"

  -- The first argument is the program's name; the value is the line that is printed.
  unfoldable pub main : List String → Outcome String
  unfolding gen
  main (program ∷ ip ∷ dht_key_enc ∷ []) = line (gen ip dht_key_enc)
  main _ = ok usage

  -- The node can be made, or the arguments are not two.
  abbrev pub IsMade : List String → Type 0
  IsMade (program ∷ ip ∷ dht_key_enc ∷ []) = IsCalm (signed_node ip dht_key_enc)
  IsMade _ = Unit

  line_ends : (made : Outcome String) → IsCalm made → (text : String) × (line made ≡ ok text)
  line_ends (ok text) calm = (text, refl)
  line_ends (err e) calm = (_, refl)
  line_ends (panic e) calm = elim calm [ ]

  -- If the signed node can be made for the two arguments, or there are not two, then bin/gendht.rs
  -- prints a line: no failure to read the node's key and addresses or to print it is a panic.
  pub gendht_ends : (args : List String) → IsMade args → (text : String) × (main args ≡ ok text)
  unfolding main gen
  gendht_ends [] made = (usage, refl)
  gendht_ends (p ∷ []) made = (usage, refl)
  gendht_ends (p ∷ a ∷ []) made = (usage, refl)
  gendht_ends (p ∷ ip ∷ key ∷ []) made = line_ends (gen ip key) (
      IsCalm->>= (signed_node ip key) _ made λ node.
        IsCalm->>= (outcome (api.nodes.key_of node)) _ (outcome-IsCalm (api.nodes.key_of node))
          λ id.
            IsCalm->>= (describe api.nodes node id) _ (describe-IsCalm api.nodes node id)
              λ json. outcome-IsCalm (api.to_string_pretty json))
  gendht_ends (p ∷ a ∷ b ∷ c ∷ rest) made = (usage, refl)
