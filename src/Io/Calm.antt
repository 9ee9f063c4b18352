-- ===== src/Io/Calm.antt =====
-- Calls that do not panic, whatever happened before.
use ever_node_tools.Prelude.{List}
use ever_node_tools.Outcome.{Outcome, ok, err, panic, Result, outcome, IsCalm, outcome-IsCalm}
use ever_node_tools.Io.{Io, continue, lift, perform, ◌>>=◌, Ensures, Ensures->>=, Ensures-calm}

module _ {E : Type 0} where
  unfoldable pub IsCalmIo : {A : Type 0} → Io E A → Type 0
  IsCalmIo m = (h : List E) → IsCalm (m h).0

  continue-IsCalm :
      {A B : Type 0} (r : Outcome A) (f : A → Io E B) (h : List E)
      → IsCalm r
      → ((a : A) → IsCalmIo (f a))
      → IsCalm (continue r f h).0
  unfolding IsCalmIo
  continue-IsCalm (ok a) f h calm rest = rest a h
  continue-IsCalm (err e) f h calm rest = tt
  continue-IsCalm (panic e) f h calm rest = calm

  pub IsCalmIo->>= :
      {A B : Type 0} (m : Io E A) (f : A → Io E B)
      → IsCalmIo m
      → ((a : A) → IsCalmIo (f a))
      → IsCalmIo (m >>= f)
  unfolding IsCalmIo
  IsCalmIo->>= m f first rest h = continue-IsCalm (m h).0 f (m h).1 (first h) rest

  -- behind a call without effects
  pub IsCalmIo-lift :
      {A B : Type 0} (r : Outcome A) (f : A → Io E B)
      → IsCalm r
      → ((a : A) → IsCalmIo (f a))
      → IsCalmIo (lift r >>= f)
  unfolding IsCalmIo
  IsCalmIo-lift r f calm rest h = continue-IsCalm r f h calm rest

  -- behind a call of a library
  pub IsCalmIo-call :
      {A B : Type 0} (r : Result A) (f : A → Io E B)
      → ((a : A) → IsCalmIo (f a))
      → IsCalmIo (lift (outcome r) >>= f)
  IsCalmIo-call r f rest = IsCalmIo-lift (outcome r) f (outcome-IsCalm r) rest

  -- behind an event that is answered by a library
  pub IsCalmIo-event :
      {A B : Type 0} (event : E) (answer : List E → Result A) (f : A → Io E B)
      → ((a : A) → IsCalmIo (f a))
      → IsCalmIo (perform event (λ h. outcome (answer h)) >>= f)
  unfolding IsCalmIo
  IsCalmIo-event event answer f rest h =
      continue-IsCalm (outcome (answer h)) f _ (outcome-IsCalm (answer h)) rest

  pub IsCalmIo-say :
      {A B : Type 0} (event : E) (a : A) (f : A → Io E B)
      → ((a : A) → IsCalmIo (f a))
      → IsCalmIo (perform event (λ h. ok a) >>= f)
  unfolding IsCalmIo
  IsCalmIo-say event a f rest h = rest a _

  pub IsCalmIo-says : {A : Type 0} (event : E) (a : A) → IsCalmIo (perform event (λ h. ok a))
  unfolding IsCalmIo
  IsCalmIo-says event a h = tt

  -- The rule for a call that does not panic, and what follows it whatever it gives.
  pub Ensures-quiet :
      {A B : Type 0} (Q : B → List E → Type 0) (m : Io E A) (f : A → Io E B) (h : List E)
      → IsCalmIo m
      → ((a : A) (g : List E) → Ensures Q (λ _. Unit) (f a g).0 (f a g).1)
      → Ensures Q (λ _. Unit) ((m >>= f) h).0 ((m >>= f) h).1
  unfolding IsCalmIo
  Ensures-quiet Q m f h calm rest =
      Ensures->>= (λ _ _. Unit) Q (λ _. Unit) m f h
        (Ensures-calm (λ _ _. Unit) (λ _. Unit) (m h).0 (m h).1 (calm h) tt (λ _ _. tt))
        (λ a g _. rest a g)
