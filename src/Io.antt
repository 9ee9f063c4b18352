-- ===== src/Io.antt =====
-- Calls with effects: what happens outside is a history of events, newest first, and whatever the
-- outside answers may depend on the whole history. A call gives an outcome and the longer history.
pub mod Calm
use mathlib.Core.Path.{subst₂}
use ever_node_tools.Prelude.{String, ◌≡◌, refl, ap, List, ◌∷◌, inl, inr}
use ever_node_tools.Outcome.{Outcome, ok, err, panic, Result, outcome, outcome-eq-ok, IsCalm}
use ever_node_tools.Outcome

abbrev pub Io {ℓ} : Type ℓ → Type ℓ → Type ℓ
Io E A = List E → Outcome A × List E

module _ {ℓ} {E A : Type ℓ} where
  abbrev pub pure : A → Io E A
  pure a h = (ok a, h)

  abbrev pub fail : String → Io E A
  fail e h = (err e, h)

  -- a call without effects
  abbrev pub lift : Outcome A → Io E A
  lift r h = (r, h)

  -- an event, and what the outside answers to it
  abbrev pub perform : E → (List E → Outcome A) → Io E A
  perform e answer h = (answer h, e ∷ h)

  abbrev pub map_err : (String → String) → Io E A → Io E A
  map_err f m h = let (r, h') = m h in (Outcome.map_err f r, h')

module _ {ℓ} {E A B : Type ℓ} where
  abbrev pub continue : Outcome A → (A → Io E B) → Io E B
  continue (ok a) f h = f a h
  continue (err e) f h = (err e, h)
  continue (panic e) f h = (panic e, h)

  infixl 5 ◌>>=◌ ◌>>◌
  abbrev pub ◌>>=◌ : Io E A → (A → Io E B) → Io E B
  ◌>>=◌ m f h = let (r, h') = m h in continue r f h'

  abbrev pub ◌>>◌ : Io E A → Io E B → Io E B
  ◌>>◌ m k = m >>= λ _. k

  continue-eq-ok :
      (r : Outcome A) (f : A → Io E B) (h : List E) {b : B} {h' : List E}
      → continue r f h ≡ (ok b, h')
      → (a : A) × (r ≡ ok a) × (f a h ≡ (ok b, h'))
  continue-eq-ok (ok a) f h e = (a, refl, e)
  continue-eq-ok (err x) f h e = cc (ap (λ p. p.0) e)
  continue-eq-ok (panic x) f h e = cc (ap (λ p. p.0) e)

  always_after :
      (P : List E → Type 0) (r : Outcome A) (f : A → Io E B) (h : List E)
      → P h
      → ((a : A) → r ≡ ok a → P (f a h).1)
      → P (continue r f h).1
  always_after P (ok a) f h first rest = rest a refl
  always_after P (err e) f h first rest = first
  always_after P (panic e) f h first rest = first

  -- The two calls of a chain that returned a value.
  pub >>=-eq-ok :
      (m : Io E A) (f : A → Io E B) (h : List E) {b : B} {h' : List E}
      → (m >>= f) h ≡ (ok b, h')
      → (a : A) × ((m h).0 ≡ ok a) × (f a (m h).1 ≡ (ok b, h'))
  >>=-eq-ok m f h e = continue-eq-ok (m h).0 f (m h).1 e

  -- What holds of the history of a chain, whatever its outcome is.
  pub always :
      (P : List E → Type 0) (m : Io E A) (f : A → Io E B) (h : List E)
      → P (m h).1
      → ((a : A) → (m h).0 ≡ ok a → P (f a (m h).1).1)
      → P ((m >>= f) h).1
  always P m f h first rest = always_after P (m h).0 f (m h).1 first rest

  -- A call that leaves the history alone, behind an outcome.
  pub continue_quiet :
      (r : Outcome A) (f : A → Io E B) (h : List E)
      → ((a : A) → (f a h).1 ≡ h)
      → (continue r f h).1 ≡ h
  continue_quiet (ok a) f h q = q a
  continue_quiet (err e) f h q = refl
  continue_quiet (panic e) f h q = refl

-- One call of a chain that returned a value, where its history is known, and then the rest.
module _ {E A B : Type 0} {G : Type 0} where
  pub after :
      (m : Io E A) (f : A → Io E B) (h : List E) {b : B} {g h' : List E}
      → (m >>= f) h ≡ (ok b, h')
      → (m h).1 ≡ g
      → ((a : A) → (m h).0 ≡ ok a → f a g ≡ (ok b, h') → G)
      → G
  after m f h done known rest =
      let (a, returned, later) = >>=-eq-ok m f h done in rest a returned (rw known at later)

module _ {E A B : Type 0} {G : Type 0} where
  -- The same, with the history that the call left.
  pub after_all :
      (m : Io E A) (f : A → Io E B) (h : List E) {b : B} {h' : List E}
      → (m >>= f) h ≡ (ok b, h')
      → ((a : A) (g : List E) → m h ≡ (ok a, g) → f a g ≡ (ok b, h') → G)
      → G
  after_all m f h done rest =
      let (a, value, later) = >>=-eq-ok m f h done in rest a (m h).1 (λ i. (value i, (m h).1)) later

module _ {E A B : Type 0} {G : Type 0} where
  -- The same for a call of a library.
  pub after_call :
      (r : Result A) (f : A → Io E B) (h : List E) {b : B} {h' : List E}
      → (lift (outcome r) >>= f) h ≡ (ok b, h')
      → ((a : A) → r ≡ inr a → f a h ≡ (ok b, h') → G)
      → G
  after_call r f h done rest =
      after (lift (outcome r)) f h done refl (λ a e later. rest a (outcome-eq-ok r e) later)

module _ {E A B T : Type 0} {P : T → Type 0} {G : Type 0} where
  -- The same, where the history holds a value that was read.
  pub after_reading :
      (m : Io E A) (f : A → Io E B) (h : List E) {b : B} {g : T → List E} {h' : List E}
      → (m >>= f) h ≡ (ok b, h')
      → ((a : A) → (m h).0 ≡ ok a → (t : T) × P t × ((m h).1 ≡ g t))
      → ((a : A) (t : T) → (m h).0 ≡ ok a → P t → f a (g t) ≡ (ok b, h') → G)
      → G
  after_reading m f h done known rest =
      let (a, returned, later) = >>=-eq-ok m f h done in
      let (t, read, sent) = known a returned in rest a t returned read (rw sent at later)

-- Two equal results have equal values and histories.
pub returned :
    {A E : Type 0} (Q : A → List E → Type 0) {a b : A} {g h : List E}
    → ◌≡◌ {A = Outcome A × List E} (ok a, g) (ok b, h)
    → Q a g
    → Q b h
returned Q {a} {b} e q =
    let same : a ≡ b = cc (ap (λ p. p.0) e) in subst₂ Q same (ap (λ p. p.1) e) q

-- The call does not panic; `P` holds of its value and history, and `I` of the history at an error.
abbrev pub Ensures :
    {A E : Type 0} → (A → List E → Type 0) → (List E → Type 0) → Outcome A → List E → Type 0
Ensures P I (ok a) h = P a h
Ensures P I (err e) h = I h
Ensures P I (panic e) h = ⊥

module _ {A B E : Type 0} (P : A → List E → Type 0) (Q : B → List E → Type 0)
    (I : List E → Type 0) where
  Ensures-continue :
      (r : Outcome A) (f : A → Io E B) (h : List E)
      → Ensures P I r h
      → ((a : A) (g : List E) → P a g → Ensures Q I (f a g).0 (f a g).1)
      → Ensures Q I (continue r f h).0 (continue r f h).1
  Ensures-continue (ok a) f h p k = k a h p
  Ensures-continue (err e) f h p k = p
  Ensures-continue (panic e) f h p k = elim p [ ]

  -- The rule for a chain.
  pub Ensures->>= :
      (m : Io E A) (f : A → Io E B) (h : List E)
      → Ensures P I (m h).0 (m h).1
      → ((a : A) (g : List E) → P a g → Ensures Q I (f a g).0 (f a g).1)
      → Ensures Q I ((m >>= f) h).0 ((m >>= f) h).1
  Ensures->>= m f h = Ensures-continue (m h).0 f (m h).1

-- The rule for a call of a library.
pub Ensures-outcome :
    {A E : Type 0} (P : A → List E → Type 0) (I : List E → Type 0) (r : Result A) (h : List E)
    → I h
    → ((a : A) → r ≡ inr a → P a h)
    → Ensures P I (outcome r) h
Ensures-outcome P I (inl e) h bad good = bad
Ensures-outcome P I (inr a) h bad good = good a refl

-- The same for any call that does not panic.
pub Ensures-calm :
    {A E : Type 0} (P : A → List E → Type 0) (I : List E → Type 0) (r : Outcome A) (h : List E)
    → IsCalm r
    → I h
    → ((a : A) → r ≡ ok a → P a h)
    → Ensures P I r h
Ensures-calm P I (ok a) h calm bad good = good a refl
Ensures-calm P I (err e) h calm bad good = bad
Ensures-calm P I (panic e) h calm bad good = calm

-- The rule for a call that does not panic and leaves no event, and what follows it.
pub Ensures-lift :
    {A B E : Type 0} (Q : B → List E → Type 0) (I : List E → Type 0) (r : Outcome A)
    (f : A → Io E B) (h : List E)
    → IsCalm r
    → I h
    → ((a : A) → r ≡ ok a → Ensures Q I (f a h).0 (f a h).1)
    → Ensures Q I ((lift r >>= f) h).0 ((lift r >>= f) h).1
Ensures-lift Q I (ok a) f h calm bad rest = rest a refl
Ensures-lift Q I (err e) f h calm bad rest = bad
Ensures-lift Q I (panic e) f h calm bad rest = calm

-- What is ensured of a call that returned a value.
pub Ensures-ok :
    {A E : Type 0} (P : A → List E → Type 0) (I : List E → Type 0) (r : Outcome A × List E) {a : A}
    {g : List E}
    → Ensures P I r.0 r.1
    → r ≡ (ok a, g)
    → P a g
Ensures-ok P I (ok b, h) ensured e = returned P e ensured
Ensures-ok P I (err x, h) ensured e = cc (ap (λ p. p.0) e)
Ensures-ok P I (panic x, h) ensured e = cc (ap (λ p. p.0) e)
