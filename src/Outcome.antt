-- ===== src/Outcome.antt =====
-- What a fallible call of the program gives: a value, an error with its text, or a panic, which no
-- caller of the program catches.
use ever_node_tools.Prelude.{
  ◌⊎◌, inl, inr, String, ◌≡◌, refl, Bool, true, false, Option, none, some, List,
}

pub data Outcome {ℓ} (A : Type ℓ) : Type ℓ where
  ok : A → Outcome A
  err : String → Outcome A
  panic : String → Outcome A

pub ok-injective {ℓ} : {A : Type ℓ} {a b : A} → ok a ≡ ok b → a ≡ b
ok-injective h = cc

module _ {ℓ κ} {A : Type ℓ} {B : Type κ} where
  -- the operator `?`
  infixl 5 ◌>>=◌
  abbrev pub ◌>>=◌ : Outcome A → (A → Outcome B) → Outcome B
  panic text >>= next = panic text
  err text >>= next = err text
  ok value >>= next = next value

  -- The parts of a chain that returned a value.
  pub >>=-eq-ok :
      (call : Outcome A) (next : A → Outcome B) {result : B}
      → (call >>= next) ≡ ok result
      → (value : A) × (call ≡ ok value) × (next value ≡ ok result)
  >>=-eq-ok (panic text) next done = cc
  >>=-eq-ok (err text) next done = cc
  >>=-eq-ok (ok value) next done = (value, refl, done)

-- a statement that ends with `?;`
infixl 5 ◌>>◌
abbrev pub ◌>>◌ {ℓ} : {B : Type ℓ} → Outcome (Unit {0}) → Outcome B → Outcome B
call >> rest = call >>= λ done. rest

-- `if test { fail!(e) }`
abbrev pub fail_if : Bool → String → Outcome (Unit {0})
fail_if true e = err e
fail_if false e = ok tt

module _ {ℓ} {A : Type ℓ} where
  -- `Result::map_err`
  abbrev pub map_err : (String → String) → Outcome A → Outcome A
  map_err f (ok a) = ok a
  map_err f (err e) = err (f e)
  map_err f (panic e) = panic e

  -- `Option::ok_or_else`
  abbrev pub ok_or : String → Option A → Outcome A
  ok_or e none = err e
  ok_or e (some a) = ok a

pub map_err-eq-ok {ℓ} :
    {A : Type ℓ} (f : String → String) (m : Outcome A) {a : A} → map_err f m ≡ ok a → m ≡ ok a
map_err-eq-ok f (ok a) h = h
map_err-eq-ok f (err e) h = cc
map_err-eq-ok f (panic e) h = cc

-- The same, for one step of a longer chain.
pub after :
    {A B G : Type 0} (m : Outcome A) (f : A → Outcome B) {b : B}
    → (m >>= f) ≡ ok b
    → ((a : A) → m ≡ ok a → f a ≡ ok b → G)
    → G
after m f h rest = let (a, e, later) = >>=-eq-ok m f h in rest a e later

-- The step of a test that was passed.
pub after_check :
    {B G : Type 0} (test : Bool) (text : String) (m : Outcome B) {b : B}
    → (fail_if test text >> m) ≡ ok b
    → (test ≡ false → m ≡ ok b → G)
    → G
after_check true text m h rest = cc
after_check false text m h rest = rest refl h

-- A call of a library that can fail and does not panic.
abbrev pub Result : Type 0 → Type 0
Result A = String ⊎ A

abbrev pub outcome : {A : Type 0} → Result A → Outcome A
outcome (inl e) = err e
outcome (inr a) = ok a

-- `expect` and `unwrap`, with the message that the panic begins with
abbrev pub expect {ℓ} : {A : Type ℓ} → String → Outcome A → Outcome A
expect text (ok a) = ok a
expect text (err e) = panic text
expect text (panic e) = panic e

abbrev pub expect_some {ℓ} : {A : Type ℓ} → String → Option A → Outcome A
expect_some text none = panic text
expect_some text (some a) = ok a

pub expect-eq-ok {ℓ} :
    {A : Type ℓ} (text : String) (r : Outcome A) {a : A} → expect text r ≡ ok a → r ≡ ok a
expect-eq-ok text (ok a) h = h
expect-eq-ok text (err e) h = cc
expect-eq-ok text (panic e) h = cc

pub expect_some-eq-ok {ℓ} :
    {A : Type ℓ} (text : String) (o : Option A) {a : A} → expect_some text o ≡ ok a → o ≡ some a
expect_some-eq-ok text none h = cc
expect_some-eq-ok text (some a) h = cc

-- What an iteration of a library gives to its callback, and the error that it ends with, if any.
abbrev pub Iteration : Type 0 → Type 0
Iteration A = List A × Option String

abbrev pub ended : Option String → Outcome (Unit {0})
ended none = ok tt
ended (some e) = err e

pub outcome-eq-ok : {A : Type 0} (r : Result A) {a : A} → outcome r ≡ ok a → r ≡ inr a
outcome-eq-ok (inl e) h = cc
outcome-eq-ok (inr a) h = cc

pub ok_or-eq-ok {ℓ} :
    {A : Type ℓ} (e : String) (o : Option A) {a : A} → ok_or e o ≡ ok a → o ≡ some a
ok_or-eq-ok e none h = cc
ok_or-eq-ok e (some a) h = cc

-- The call does not panic.
abbrev pub IsCalm {ℓ} : {A : Type ℓ} → Outcome A → Type 0
IsCalm (ok a) = Unit
IsCalm (err e) = Unit
IsCalm (panic e) = ⊥

pub outcome-IsCalm : {A : Type 0} (r : Result A) → IsCalm (outcome r)
outcome-IsCalm (inl e) = tt
outcome-IsCalm (inr a) = tt

pub ok_or-IsCalm {ℓ} : {A : Type ℓ} (e : String) (o : Option A) → IsCalm (ok_or e o)
ok_or-IsCalm e none = tt
ok_or-IsCalm e (some a) = tt

pub map_err-IsCalm {ℓ} :
    {A : Type ℓ} (f : String → String) (r : Outcome A) → IsCalm r → IsCalm (map_err f r)
map_err-IsCalm f (ok a) calm = tt
map_err-IsCalm f (err e) calm = tt
map_err-IsCalm f (panic e) calm = calm

pub IsCalm->>= {ℓ κ} :
    {A : Type ℓ} {B : Type κ} (call : Outcome A) (next : A → Outcome B)
    → IsCalm call
    → ((a : A) → IsCalm (next a))
    → IsCalm (call >>= next)
IsCalm->>= (ok a) next first rest = rest a
IsCalm->>= (err e) next first rest = tt
IsCalm->>= (panic e) next first rest = first
