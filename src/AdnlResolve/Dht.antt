-- ===== src/AdnlResolve/Dht.antt =====
-- What bin/adnl_resolve.rs calls of the DHT node. Its answers may depend on all that was asked; the
-- history keeps the answers of `find_dht_nodes`, which the search works with.
pub use ever_node_tools.Outcome.{Result, outcome}
use ever_node_tools.Prelude.{String, ◌≡◌, ◌↔◌, Bool, true, Option, List}
use ever_node_tools.Rust.Word.{Bytes}

pub record Api : Type 1 where
  pub Node : Type 0
  pub Key : Type 0
  pub Found : Type 0
  pub same : Key → Key → Bool
  pub key_text : Key → String
  pub found_text : Found → String
  pub debug_node : Node → String
  pub id_text : Bytes → String

pub data Event (api : Api) : Type 0 where
  start : Event api
  find_address : Bytes → Event api
  get_known_nodes : Event api
  add_peer : api.Node → Event api
  find_dht_nodes : api.Key → Result Bool → Event api
  print : String → Event api

pub record World (api : Api) : Type 0 where
  pub started : List (Event api) → Result (Unit {0})
  -- the address, if the search gave `Ok(Some(_))`
  pub address : List (Event api) → Bytes → Option api.Found
  pub base64_decode : String → Result Bytes
  pub known : List (Event api) → Result (List api.Node)
  pub added : List (Event api) → api.Node → Result (Option api.Key)
  pub responds : List (Event api) → api.Key → Result Bool

-- `==` on keys
pub record IsLawful (api : Api) : Type 0 where
  pub same_iff : (a b : api.Key) → (api.same a b ≡ true) ↔ (a ≡ b)
