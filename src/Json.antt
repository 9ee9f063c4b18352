-- ===== src/Json.antt =====
-- JSON values as the macro `json!` of serde_json builds them, with their fields in the source's
-- order. Printing them is serde_json's, and a parameter where it is used.
pub mod Leaves
use ever_node_tools.Prelude.{String}
use ever_node_tools.Prelude.Int.{ℤ}

mutual
  pub data Json : Type 0 where
    null : Json
    str : String → Json
    num : ℤ → Json
    arr : Items → Json
    obj : Fields → Json

  pub data Items : Type 0 where
    nil : Items
    cons : Json → Items → Items

  pub data Fields : Type 0 where
    end : Fields
    field : String → Json → Fields → Fields
