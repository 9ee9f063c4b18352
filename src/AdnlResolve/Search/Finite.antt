-- ===== src/AdnlResolve/Search/Finite.antt =====
-- Keys of a finite universe: a list without repetition is not longer than the universe.
use ever_node_tools.Prelude.{
  ◌+◌, ◌≤◌, ◌≡◌, refl, inl, inr, Bool-cases, true, false, List, [], ◌∷◌, ◌++◌, All, length, arith,
  if◌then◌else◌,
}
use ever_node_tools.AdnlResolve.Dht.{Api, IsLawful}
use ever_node_tools.AdnlResolve.Search.{contains}
use ever_node_tools.AdnlResolve.Search.Keys.{Unique, All-other}

module _ (api : Api) (laws : IsLawful api) where
  open api use {Key, same}

  -- Every key of the list is in the universe.
  abbrev pub Within : List Key → List Key → Type 0
  Within universe = All (λ k. contains api universe k ≡ true)

  unfoldable erase : Key → List Key → List Key
  erase k [] = []
  erase k (j ∷ keys) = if same j k then keys else j ∷ erase k keys

  length-erase :
      (k : Key) (keys : List Key)
      → contains api keys k ≡ true
      → length (erase k keys) + 1 ≡ length keys
  unfolding contains erase
  length-erase k [] h = cc
  length-erase k (j ∷ keys) h = elim (Bool-cases (same j k)) [
    | inl equal ↦ rw equal (omega arith)
    | inr other ↦ rw other (omega (arith, length-erase k keys (rw other at h)))
  ]

  contains-erase :
      (k j : Key) (keys : List Key)
      → same k j ≡ false
      → contains api keys j ≡ true
      → contains api (erase k keys) j ≡ true
  unfolding contains erase
  contains-erase k j [] differs h = h
  contains-erase k j (i ∷ keys) differs h = elim (Bool-cases (same i k)) [
    | inl equal ↦
        let same_key : i ≡ k = (laws.same_iff i k).0 equal in
        let apart : same i j ≡ false = rw same_key differs in rw equal (rw apart at h)
    | inr other ↦ rw other (elim (Bool-cases (same i j)) [
      | inl here ↦ rw here refl
      | inr there ↦ rw there (contains-erase k j keys differs (rw there at h))
    ])
  ]

  Within-erase :
      (k : Key) (keys universe : List Key)
      → All (λ j. same k j ≡ false) keys
      → Within universe keys
      → Within (erase k universe) keys
  Within-erase k [] universe _ _ = tt
  Within-erase k (j ∷ keys) universe (differs, others) (inside, within) =
      (contains-erase k j universe differs inside, Within-erase k keys universe others within)

  pub length-Within :
      (keys universe : List Key)
      → Unique api laws keys
      → Within universe keys
      → length keys ≤ length universe
  length-Within [] universe _ _ = omega arith
  length-Within (k ∷ keys) universe (new, unique) (inside, within) =
      let shorter =
        length-Within keys (erase k universe) unique
          (Within-erase k keys universe (All-other api laws keys k new) within) in
      omega (arith, length-erase k universe inside, shorter)

  pub Within-append :
      (universe keys : List Key) (k : Key)
      → Within universe keys
      → contains api universe k ≡ true
      → Within universe (keys ++ k ∷ [])
  Within-append universe [] k _ inside = (inside, tt)
  Within-append universe (j ∷ keys) k (first, within) inside =
      (first, Within-append universe keys k within inside)
