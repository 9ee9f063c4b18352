-- ===== src/DhtNode.antt =====
-- The description of a DHT node that bin/dhtscan.rs and bin/gendht.rs print. The node itself is the
-- library's; the operations that read it are parameters.
use ever_node_tools.Prelude.{String, ◌<>◌, Option}
use ever_node_tools.Prelude.Int.{ℤ}
use ever_node_tools.Outcome.{
  Outcome, ok, ok_or, Result, outcome, ◌>>=◌, IsCalm, IsCalm->>=, outcome-IsCalm, ok_or-IsCalm,
}
use ever_node_tools.Rust.Word.{Bytes}
use ever_node_tools.Json.{Json, str, num, arr, obj, nil, cons, end, field}

-- `version` and the three fields after it are those of the node's address list.
pub record NodeApi : Type 1 where
  pub Node : Type 0
  pub Key : Type 0
  pub Address : Type 0
  pub key_of : Node → Result Key
  pub pub_key : Key → Result Bytes
  pub parse_address_list : Node → Result (Option Address)
  pub debug_addr_list : Node → String
  pub ip : Address → ℤ
  pub port : Address → ℤ
  pub version : Node → ℤ
  pub reinit_date : Node → ℤ
  pub priority : Node → ℤ
  pub expire_at : Node → ℤ
  pub node_version : Node → ℤ
  pub signature : Node → Bytes
  pub base64_encode : Bytes → String

module _ (api : NodeApi) where
  unfoldable pub addr_list_json : api.Node → api.Address → Json
  addr_list_json node adr = obj (
      field "@type" (str "adnl.addressList") (
        field "addrs"
          (arr (
            cons
              (obj (
                field "@type" (str "adnl.address.udp")
                  (field "ip" (num (api.ip adr)) (field "port" (num (api.port adr)) end))))
              nil))
          (field "version" (num (api.version node)) (
            field "reinit_date" (num (api.reinit_date node)) (
              field "priority" (num (api.priority node))
                (field "expire_at" (num (api.expire_at node)) end))))))

  unfoldable pub node_json : api.Node → api.Address → Bytes → Json
  unfolding addr_list_json
  node_json node adr public = obj (
      field "@type" (str "dht.node") (
        field "id"
          (obj
            (field "@type" (str "pub.ed25519") (field "key" (str (api.base64_encode public)) end)))
          (field "addr_list" (addr_list_json node adr) (
            field "version" (num (api.node_version node))
              (field "signature" (str (api.base64_encode (api.signature node))) end)))))

  -- the address that a node gives, and its description
  unfoldable pub describe : api.Node → api.Key → Outcome Json
  describe node key = do
    list ← outcome (api.parse_address_list node)
    adr ← ok_or ("Cannot parse address list " <> api.debug_addr_list node) list
    public ← outcome (api.pub_key key)
    ok (node_json node adr public)

  pub describe-IsCalm : (node : api.Node) (key : api.Key) → IsCalm (describe node key)
  unfolding describe
  describe-IsCalm node key =
      IsCalm->>= (outcome (api.parse_address_list node)) _
        (outcome-IsCalm (api.parse_address_list node))
        λ list. IsCalm->>= (ok_or _ list) _ (ok_or-IsCalm _ list) λ adr.
          IsCalm->>= (outcome (api.pub_key key)) _ (outcome-IsCalm (api.pub_key key)) λ public. tt
