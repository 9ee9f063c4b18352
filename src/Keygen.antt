-- ===== src/Keygen.antt =====
-- bin/keygen.rs: a new key pair, printed as JSON.
use mathlib.Core.Path.{subst}
use ever_node_tools.Prelude.{
  String, ◌<>◌, str_eq, ◌≡◌, refl, ◌⊎◌, inl, inr, Option, none, some, if◌then◌else◌,
}
use ever_node_tools.Prelude.Int.{ℤ}
use ever_node_tools.Outcome.{
  Outcome, ok, err, panic, expect_some, Result, outcome, ◌>>=◌, IsCalm, IsCalm->>=, outcome-IsCalm,
  outcome-eq-ok, after, expect_some-eq-ok,
}
use ever_node_tools.Rust.Word.{Bytes}
use ever_node_tools.Json.{Json, null, str, num, arr, obj, Fields, end, field}

-- What the program calls of ton_types, serde_json, base64 and hex; the result of
-- `generate_with_json` differs from run to run.
pub record Api : Type 1 where
  pub Private : Type 0
  pub Public : Type 0
  pub generate_with_json : Result (Private × Public)
  pub to_value : Private → Result Json
  pub key_type : ℤ
  pub pub_key : Public → Result Bytes
  pub id : Public → Bytes
  pub base64_encode : Bytes → String
  pub base64_decode : String → Result Bytes
  pub hex_encode : Bytes → String
  pub pretty : Json → String

-- `Value::index` by a text: what is not there is null
abbrev pub field_at : String → Fields → Json
field_at key end = null
field_at key (field name value other) = if str_eq name key then value else field_at key other

abbrev pub index : Json → String → Json
index (obj fields) key = field_at key fields
index null key = null
index (str text) key = null
index (num n) key = null
index (arr items) key = null

-- `Value::as_str`
abbrev pub as_str : Json → Option String
as_str (str text) = some text
as_str null = none
as_str (num n) = none
as_str (arr items) = none
as_str (obj fields) = none

sum_cases : {A : Type 0} (r : Result A) → ((e : String) × (r ≡ inl e)) ⊎ ((a : A) × (r ≡ inr a))
sum_cases (inl e) = inl (e, refl)
sum_cases (inr a) = inr (a, refl)

module _ (api : Api) where
  unfoldable pub pair_json : Json → Bytes → Bytes → Bytes → Json
  pair_json pvt_key public id secret = obj (
      field "private" (obj (field "type_id" (num api.key_type) (field "pvt_key" pvt_key end))) (
        field "public"
          (obj (
            field "type_id" (num api.key_type)
              (field "pub_key" (str (api.base64_encode public)) end)))
          (field "keyhash" (str (api.base64_encode id)) (
            field "hex"
              (obj (
                field "secret" (str (api.hex_encode secret))
                  (field "public" (str (api.hex_encode public)) end)))
              end))))

  -- the value that is printed
  unfoldable pub gen_value : Outcome Json
  unfolding pair_json
  gen_value = do
    (private, public) ← outcome api.generate_with_json
    value ← outcome (api.to_value private)
    key ← outcome (api.pub_key public)
    text ←
        expect_some "called `Option::unwrap()` on a `None` value" (as_str (index value "pvt_key"))
    secret ← outcome (api.base64_decode text)
    ok (pair_json (index value "pvt_key") key (api.id public) secret)

  -- `main`: the line that is printed, whether `gen` fails or not
  abbrev pub line : Outcome Json → Outcome String
  line (ok value) = ok (api.pretty value)
  line (err e) = ok ("Keypair generation error: " <> e)
  line (panic e) = panic e

  unfoldable pub main : Outcome String
  unfolding gen_value
  main = line gen_value

  -- The base64 notation of a public key is read back.
  abbrev pub ReadsKeyBack : Type 0
  ReadsKeyBack =
      (public : api.Public) (bytes : Bytes)
      → api.pub_key public ≡ inr bytes
      → api.base64_decode (api.base64_encode bytes) ≡ inr bytes

  -- the text at two keys, one in the other
  abbrev pub text_at : Json → String → String → Option String
  text_at value key inner = as_str (index (index value key) inner)

  -- The two notations of one key, as base64 and as hex digits, are of the same bytes.
  abbrev pub SameBytes : Option String → Option String → Type 0
  SameBytes base64 hex =
      (text : String) × (bytes : Bytes) × (base64 ≡ some text)
      × (api.base64_decode text ≡ inr bytes)
      × (hex ≡ some (api.hex_encode bytes))

  -- If the base64 notation of every public key is read back, then in any value that bin/keygen.rs prints the hex notations of the
  -- private and of the public key are of the same bytes as their base64 notations.
  pub gen_value-SameBytes :
      ReadsKeyBack
      → (value : Json) → gen_value ≡ ok value
      → SameBytes (text_at value "private" "pvt_key") (text_at value "hex" "secret")
        × SameBytes (text_at value "public" "pub_key") (text_at value "hex" "public")
  unfolding gen_value pair_json
  gen_value-SameBytes back value done =
      after (outcome api.generate_with_json) _ done λ (private, public) e1 d1.
        after (outcome (api.to_value private)) _ d1 λ json e2 d2.
          after (outcome (api.pub_key public)) _ d2 λ key e3 d3.
            after (expect_some _ (as_str (index json "pvt_key"))) _ d3 λ text e4 d4.
              after (outcome (api.base64_decode text)) _ d4 λ secret e5 d5.
                let same : pair_json (index json "pvt_key") key (api.id public) secret ≡ value =
                  cc in
                subst
                  (λ v.
                    SameBytes (text_at v "private" "pvt_key") (text_at v "hex" "secret")
                    × SameBytes (text_at v "public" "pub_key") (text_at v "hex" "public"))
                  same
                  (
                    (
                      text,
                      secret,
                      expect_some-eq-ok _ (as_str (index json "pvt_key")) e4,
                      outcome-eq-ok (api.base64_decode text) e5,
                      refl,
                    ),
                    (
                      api.base64_encode key,
                      key,
                      refl,
                      back public key (outcome-eq-ok (api.pub_key public) e3),
                      refl,
                    ),
                  )

  line_ends : (made : Outcome Json) → IsCalm made → (text : String) × (line made ≡ ok text)
  line_ends (ok value) calm = (api.pretty value, refl)
  line_ends (err e) calm = (_, refl)
  line_ends (panic e) calm = elim calm [ ]

  -- If the JSON value of every private key has a text under pvt_key, then bin/keygen.rs does not
  -- panic, and prints a line.
  pub keygen_ends :
      ((private : api.Private) (value : Json)
        → api.to_value private ≡ inr value
        → (text : String) × (as_str (index value "pvt_key") ≡ some text))
      → (text : String) × (main ≡ ok text)
  unfolding main gen_value
  keygen_ends has = line_ends gen_value (
      IsCalm->>= (outcome api.generate_with_json) _ (outcome-IsCalm api.generate_with_json)
        λ (private, public). elim (sum_cases (api.to_value private)) [
          | inl (e, failed) ↦ rw failed tt
          | inr (value, valued) ↦
              let (text, there) = has private value valued in
              rw (valued, there)
                (IsCalm->>= (outcome (api.pub_key public)) _ (outcome-IsCalm (api.pub_key public))
                  λ key.
                    IsCalm->>= (outcome (api.base64_decode text)) _
                      (outcome-IsCalm (api.base64_decode text)) λ secret. tt)
        ])
