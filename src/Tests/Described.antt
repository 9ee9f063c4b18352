-- ===== src/Tests/Described.antt =====
-- The description of a DHT node by bin/gendht.rs in an example.
use ever_node_tools.Prelude.{ℕ, String, ◌≡◌, ◌↔◌, refl, inr}
use ever_node_tools.Outcome.{ok}
use ever_node_tools.DhtNode.{describe}
use ever_node_tools.Gendht
use ever_node_tools.Gendht.{signed_node, gen}
use ever_node_tools.Gendht.Prints.{Makes, Shows, gen_iff}
use ever_node_tools.Tests.Networks.{dht_nodes}

abbrev made_api : Gendht.Api
made_api = record {
  nodes = dht_nodes;
  node_test_config = λ ip key. ip;
  Config = String;
  from_json = inr;
  Adnl = ℕ;
  with_config = λ config. inr 7;
  Dht = ℕ;
  with_adnl_node = λ adnl tag. inr adnl;
  get_signed_node = inr;
  to_string_pretty = λ json. inr "{}";
}

gen_ran : gen made_api "10.0.0.1:30303" "key" ≡ ok "{}"
unfolding gen signed_node describe
gen_ran = refl

gen_iff_example :
    (gen made_api "10.0.0.1:30303" "key" ≡ ok "{}")
    ↔ ((node : ℕ) × Makes made_api "10.0.0.1:30303" "key" node × Shows made_api node "{}")
gen_iff_example = gen_iff made_api "10.0.0.1:30303" "key" "{}"

-- The conditions are met in the example.
gen_made : (node : ℕ) × Makes made_api "10.0.0.1:30303" "key" node × Shows made_api node "{}"
gen_made = gen_iff_example.0 gen_ran
