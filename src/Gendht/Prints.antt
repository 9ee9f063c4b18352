-- ===== src/Gendht/Prints.antt =====
-- What bin/gendht.rs prints, and when.
use ever_node_tools.Prelude.{String, ◌≡◌, ◌↔◌, refl, ap, ◌∙◌, inr, some, List, [], ◌∷◌}
use ever_node_tools.Outcome
use ever_node_tools.Outcome.{
  Outcome, ok, outcome, expect, ok_or, ok-injective, after, outcome-eq-ok, expect-eq-ok,
  ok_or-eq-ok,
}
use ever_node_tools.Rust.Word.{Bytes}
use ever_node_tools.Json.{Json, str, num}
use ever_node_tools.Json.Leaves.{leaves}
use ever_node_tools.DhtNode.{describe, node_json}
use ever_node_tools.Gendht.{Api, signed_node, gen}

module _ (api : Api) where
  -- The node is made by a configuration of this address and key, started with the tag 1,
  abbrev pub Makes : String → String → api.nodes.Node → Type 0
  Makes ip dht_key_enc node =
      (config : api.Config) × (adnl : api.Adnl) × (dht : api.Dht) × (api.from_json
          (api.node_test_config ip dht_key_enc)
        ≡ inr config)
      × (api.with_config config ≡ inr adnl)
      × (api.with_adnl_node adnl 1 ≡ inr dht)
      × (api.get_signed_node dht ≡ inr node)

  -- The texts and numbers of a node's description, each with its place.
  abbrev pub described : api.nodes.Node → api.nodes.Address → Bytes → List (String × Json)
  described node adr public =
      (".@type", str "dht.node")
      ∷ (".id.@type", str "pub.ed25519")
      ∷ (".id.key", str (api.nodes.base64_encode public))
      ∷ (".addr_list.@type", str "adnl.addressList")
      ∷ (".addr_list.addrs[].@type", str "adnl.address.udp")
      ∷ (".addr_list.addrs[].ip", num (api.nodes.ip adr))
      ∷ (".addr_list.addrs[].port", num (api.nodes.port adr))
      ∷ (".addr_list.version", num (api.nodes.version node))
      ∷ (".addr_list.reinit_date", num (api.nodes.reinit_date node))
      ∷ (".addr_list.priority", num (api.nodes.priority node))
      ∷ (".addr_list.expire_at", num (api.nodes.expire_at node))
      ∷ (".version", num (api.nodes.node_version node))
      ∷ (".signature", str (api.nodes.base64_encode (api.nodes.signature node)))
      ∷ []

  -- The text is that of a value with these leaves, for the node's key and the address that its list
  -- gives.
  abbrev pub Shows : api.nodes.Node → String → Type 0
  Shows node text =
      (key : api.nodes.Key) × (adr : api.nodes.Address) × (public : Bytes) × (api.nodes.key_of node
        ≡ inr key)
      × (api.nodes.parse_address_list node ≡ inr (some adr))
      × (api.nodes.pub_key key ≡ inr public)
      × (leaves "" (node_json api.nodes node adr public) ≡ described node adr public)
      × (api.to_string_pretty (node_json api.nodes node adr public) ≡ inr text)

  node_json-described :
      (node : api.nodes.Node) (adr : api.nodes.Address) (public : Bytes)
      → leaves "" (node_json api.nodes node adr public) ≡ described node adr public
  unfolding node_json leaves
  node_json-described node adr public = refl

  signed_node-Makes :
      (ip dht_key_enc : String) {node : api.nodes.Node}
      → signed_node api ip dht_key_enc ≡ ok node
      → Makes ip dht_key_enc node
  unfolding signed_node
  signed_node-Makes ip dht_key_enc done =
      after (expect _ (outcome (api.from_json (api.node_test_config ip dht_key_enc)))) _ done
        λ config e1 d1. after (expect _ (outcome (api.with_config config))) _ d1 λ adnl e2 d2.
          after (expect _ (outcome (api.with_adnl_node adnl 1))) _ d2 λ dht e3 d3. (
            config,
            adnl,
            dht,
            outcome-eq-ok _ (expect-eq-ok _ _ e1),
            outcome-eq-ok (api.with_config config) (expect-eq-ok _ _ e2),
            outcome-eq-ok (api.with_adnl_node adnl 1) (expect-eq-ok _ _ e3),
            outcome-eq-ok (api.get_signed_node dht) (expect-eq-ok _ _ d3),
          )

  describe-Shows :
      (node : api.nodes.Node) {text : String}
      → Outcome.◌>>=◌ (outcome (api.nodes.key_of node)) (λ key.
        Outcome.◌>>=◌ (describe api.nodes node key) λ json. outcome (api.to_string_pretty json))
        ≡ ok text
      → Shows node text
  unfolding describe
  describe-Shows node done = after (outcome (api.nodes.key_of node)) _ done λ key e1 d1.
      after (describe api.nodes node key) _ d1 λ json described d2.
        after (outcome (api.nodes.parse_address_list node)) _ described λ list e3 d3.
          after (ok_or _ list) _ d3 λ adr e4 d4.
            after (outcome (api.nodes.pub_key key)) _ d4 λ public e5 d5. (
              key,
              adr,
              public,
              outcome-eq-ok (api.nodes.key_of node) e1,
              outcome-eq-ok (api.nodes.parse_address_list node) e3 ∙ ap inr (ok_or-eq-ok _ list e4),
              outcome-eq-ok (api.nodes.pub_key key) e5,
              node_json-described node adr public,
              outcome-eq-ok _ (rw (← ok-injective d5) at d2),
            )

  -- gendht prints a text exactly if the signed node can be made of the address and the key, its key and
  -- the address in its list can be read, and the text is that of a JSON value whose leaves are, in this
  -- order and under the names of the format, the types, the key and the signature in base64, the IP and
  -- the port of the address, and the numbers of the node and of its address list.
  pub gen_iff :
      (ip dht_key_enc text : String)
      → (gen api ip dht_key_enc ≡ ok text)
        ↔ ((node : api.nodes.Node) × Makes ip dht_key_enc node × Shows node text)
  unfolding gen signed_node describe
  gen_iff ip dht_key_enc text = (
    λ done.
        after (signed_node api ip dht_key_enc) _ done λ node made later.
          (node, signed_node-Makes ip dht_key_enc made, describe-Shows node later),
    λ (
      node,
      (config, adnl, dht, parsed, started, joined, signed),
      (key, adr, public, e1, e2, e3, shown, e4),
    ).
        rw (parsed, started, joined, signed, e1, e2, e3, e4),
  )
