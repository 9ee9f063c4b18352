-- ===== src/Json/Leaves.antt =====
-- The leaves of a JSON value: its texts and numbers, each with the names of the fields that lead to it;
-- `[]` stands for an element of an array.
use ever_node_tools.Prelude.{String, ◌<>◌, List, [], ◌∷◌, ◌++◌}
use ever_node_tools.Json.{Json, Items, Fields, null, str, num, arr, obj, nil, cons, end, field}

unfoldable mutual
  pub leaves : String → Json → List (String × Json)
  leaves path null = (path, null) ∷ []
  leaves path (str text) = (path, str text) ∷ []
  leaves path (num n) = (path, num n) ∷ []
  leaves path (arr items) = item_leaves (path <> "[]") items
  leaves path (obj fields) = field_leaves path fields

  pub item_leaves : String → Items → List (String × Json)
  item_leaves path nil = []
  item_leaves path (cons value items) = leaves path value ++ item_leaves path items

  pub field_leaves : String → Fields → List (String × Json)
  field_leaves path end = []
  field_leaves path (field name value fields) =
      leaves (path <> ("." <> name)) value ++ field_leaves path fields
