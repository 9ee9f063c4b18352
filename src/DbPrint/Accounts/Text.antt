-- ===== src/DbPrint/Accounts/Text.antt =====
-- Texts with a separator between them, put together in parts.
use ever_node_tools.Prelude.{
  String, ◌<>◌, ◌≡◌, refl, sym, ◌∙◌, ap, Bool, true, false, List, [], ◌∷◌, ◌++◌,
}
use text.Mathlib.TextLemmas.{
  append-nil as str_append-nil, nil-append as nil-str_append, append_assoc as str_append_assoc,
}
use ever_node_tools.Json.{Json}
use ever_node_tools.DbPrint.Db.{Api}

-- what a history of outputs wrote
abbrev pub written : List String → String
written [] = ""
written (text ∷ earlier) = written earlier <> text

module _ (api : Api) where
  -- The texts with a comma and a line end between them.
  unfoldable pub separated : List Json → String
  separated [] = ""
  separated (json ∷ []) = api.pretty json
  separated (json ∷ next ∷ rest) = api.pretty json <> (",\n" <> separated (next ∷ rest))

  abbrev pub after_first : List Json → String
  after_first [] = ""
  after_first (json ∷ rest) = ",\n" <> separated (json ∷ rest)

  abbrev pub body : Bool → List Json → String
  body true jsons = separated jsons
  body false jsons = after_first jsons

  abbrev pub still : Bool → List Json → Bool
  still first [] = first
  still first (json ∷ rest) = false

  pub separated_cons :
      (json : Json) (rest : List Json)
      → separated (json ∷ rest) ≡ api.pretty json <> after_first rest
  unfolding separated
  separated_cons json [] = sym (str_append-nil (api.pretty json))
  separated_cons json (next ∷ rest) = refl

  separated_append :
      (json : Json) (rest two : List Json)
      → after_first (rest ++ two) ≡ after_first rest <> after_first two
      → separated ((json ∷ rest) ++ two) ≡ separated (json ∷ rest) <> after_first two
  separated_append json rest two e =
      separated_cons json (rest ++ two)
      ∙ ap (λ t. api.pretty json <> t) e
      ∙ sym (str_append_assoc (api.pretty json) (after_first rest) (after_first two))
      ∙ ap (λ t. t <> after_first two) (sym (separated_cons json rest))

  after_first_append :
      (one two : List Json) → after_first (one ++ two) ≡ after_first one <> after_first two
  after_first_append [] two = sym (nil-str_append (after_first two))
  after_first_append (json ∷ rest) two =
      ap (λ t. ",\n" <> t) (separated_append json rest two (after_first_append rest two))
      ∙ sym (str_append_assoc ",\n" (separated (json ∷ rest)) (after_first two))

  pub body_append :
      (first : Bool) (one two : List Json)
      → body first (one ++ two) ≡ body first one <> body (still first one) two
  unfolding separated
  body_append false [] two = after_first_append [] two
  body_append false (json ∷ rest) two = after_first_append (json ∷ rest) two
  body_append true [] two = sym (nil-str_append (separated two))
  body_append true (json ∷ rest) two = separated_append json rest two (after_first_append rest two)

  pub still_append :
      (first : Bool) (one two : List Json) → still (still first one) two ≡ still first (one ++ two)
  still_append first [] two = refl
  still_append first (json ∷ rest) [] = refl
  still_append first (json ∷ rest) (next ∷ two) = refl
