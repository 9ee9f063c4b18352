-- ===== src/AdnlResolve/Search/Keys.antt =====
-- Lists of keys: membership by `contains`, and lists without repetition.
use ever_node_tools.Prelude.{
  ℕ, zero, suc, ◌≡◌, refl, inl, inr, Bool-cases, true, false, ◌||◌, some, List, [], ◌∷◌, ◌++◌,
  get_elem?, remove_at, All, arith,
}
use ever_node_tools.AdnlResolve.Dht.{Api, IsLawful}
use ever_node_tools.AdnlResolve.Search.{contains}

module _ (api : Api) (laws : IsLawful api) where
  open api use {Key, same}

  -- No key stands twice in the list.
  abbrev pub Unique : List Key → Type 0
  Unique [] = Unit
  Unique (k ∷ keys) = (contains api keys k ≡ false) × Unique keys

  -- No key of the list is in `bad`.
  abbrev pub Apart : List Key → List Key → Type 0
  Apart bad = All (λ k. contains api bad k ≡ false)

  pub same_comm : (a b : Key) → same a b ≡ same b a
  same_comm a b = ground (arith, laws.same_iff a b, laws.same_iff b a)

  pub contains-append :
      (keys : List Key) (k j : Key)
      → contains api (keys ++ k ∷ []) j ≡ (contains api keys j || same k j)
  unfolding contains
  contains-append [] k j = ground arith
  contains-append (i ∷ keys) k j = ground (arith, contains-append keys k j)

  pub Unique-append :
      (keys : List Key) (k : Key)
      → contains api keys k ≡ false
      → Unique keys
      → Unique (keys ++ k ∷ [])
  unfolding contains
  Unique-append [] k _ _ = (refl, tt)
  Unique-append (i ∷ keys) k new (h, u) = (
    ground (arith, contains-append keys k i, same_comm i k),
    Unique-append keys k (ground arith) u,
  )

  pub Apart-append :
      (bad keys : List Key) (k : Key)
      → contains api bad k ≡ false
      → Apart bad keys
      → Apart bad (keys ++ k ∷ [])
  Apart-append bad [] k h _ = (h, tt)
  Apart-append bad (j ∷ keys) k h (p, a) = (p, Apart-append bad keys k h a)

  -- what the list lacks, its parts lack
  contains-remove_at :
      (keys : List Key) (i : ℕ) (k : Key)
      → contains api keys k ≡ false
      → contains api (remove_at keys i) k ≡ false
  unfolding contains
  contains-remove_at [] i k h = h
  contains-remove_at (j ∷ keys) zero k h = ground arith
  contains-remove_at (j ∷ keys) (suc i) k h = ground (arith, contains-remove_at keys i k)

  pub Unique-remove_at : (keys : List Key) (i : ℕ) → Unique keys → Unique (remove_at keys i)
  Unique-remove_at [] i u = tt
  Unique-remove_at (j ∷ keys) zero (h, u) = u
  Unique-remove_at (j ∷ keys) (suc i) (h, u) =
      (contains-remove_at keys i j h, Unique-remove_at keys i u)

  contains-at :
      (keys : List Key) (i : ℕ) {k : Key} → get_elem? keys i ≡ some k → contains api keys k ≡ true
  unfolding contains
  contains-at [] i e = cc
  contains-at (j ∷ keys) zero {k} e = ground (arith, laws.same_iff j k)
  contains-at (j ∷ keys) (suc i) {k} e = let m = contains-at keys i {k = k} e in ground arith

  pub All-other :
      (keys : List Key) (k : Key) → contains api keys k ≡ false → All (λ j. same k j ≡ false) keys
  unfolding contains
  All-other [] k h = tt
  All-other (j ∷ keys) k h = (ground (arith, same_comm k j), All-other keys k (ground arith))

  -- The key that is taken out is none of those that stay.
  pub others-remove_at :
      (keys : List Key) (i : ℕ) {k : Key}
      → Unique keys
      → get_elem? keys i ≡ some k
      → All (λ j. same k j ≡ false) (remove_at keys i)
  unfolding contains
  others-remove_at [] i u e = tt
  others-remove_at (j ∷ keys) zero {k} (h, u) e = All-other keys k (ground arith)
  others-remove_at (j ∷ keys) (suc i) {k} (h, u) e = (
    elim (Bool-cases (same k j)) [
      | inl equal ↦ cc ((laws.same_iff k j).0 equal, contains-at keys i {k = k} e, h)
      | inr other ↦ other
    ],
    others-remove_at keys i u e,
  )

  -- A key that is none of those in the list joins the bad ones.
  pub Apart-grow :
      (bad keys : List Key) (k : Key)
      → Apart bad keys
      → All (λ j. same k j ≡ false) keys
      → Apart (bad ++ k ∷ []) keys
  Apart-grow bad [] k _ _ = tt
  Apart-grow bad (j ∷ keys) k (p, a) (q, o) =
      (ground (arith, contains-append bad k j), Apart-grow bad keys k a o)
