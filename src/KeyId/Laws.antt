-- ===== src/KeyId/Laws.antt =====
-- How bin/keyid.rs ends.
use ever_node_tools.Prelude.{
  String, ◌<>◌, ◌≡◌, refl, inl, inr, List, [], ◌∷◌, length, Bool-cases, ◌==◌,
}
use ever_node_tools.Outcome.{Outcome, ok, err, panic, IsCalm}
use ever_node_tools.Io.{pure, fail}
use ever_node_tools.Io.Calm.{IsCalmIo, IsCalmIo->>=, IsCalmIo-lift, IsCalmIo-call, IsCalmIo-says}
use ever_node_tools.Rust.Word.{Bytes}
use ever_node_tools.KeyId.{
  say, read_public, KeyApi, lowers_to, read_private, show_public, to_array, read_key, compute,
  report, main,
}

module _ (api : KeyApi) where
  to_array-IsCalm : (bytes : Bytes) → IsCalm (to_array api bytes)
  to_array-IsCalm bytes = elim (Bool-cases (length bytes == 32)) [
    | inl fits ↦ rw fits tt
    | inr other ↦ rw other tt
  ]

  quiet : (key : api.Key) → IsCalmIo {E = String} (pure key)
  unfolding IsCalmIo
  quiet key h = tt

  refused : (text : String) → IsCalmIo {E = String} {A = api.Key} (fail text)
  unfolding IsCalmIo
  refused text h = tt

  show_public-IsCalmIo :
      (private : api.Key) (public : Bytes) → IsCalmIo (show_public api private public)
  show_public-IsCalmIo private public =
      IsCalmIo->>= (say api ("Public key: " <> api.base64_encode public)) _ (IsCalmIo-says _ tt)
        λ _. quiet private

  read_private-IsCalmIo : (key : String) (bytes : Bytes) → IsCalmIo (read_private api key bytes)
  unfolding read_private
  read_private-IsCalmIo key bytes =
      IsCalmIo->>= (say api ("Private key: " <> key)) _ (IsCalmIo-says _ tt) λ _.
        IsCalmIo-call (api.from_private_key bytes) _ λ private.
          IsCalmIo-call (api.pub_key private) _ λ public. show_public-IsCalmIo private public

  read_public-IsCalmIo : (key : String) (bytes : Bytes) → IsCalmIo (read_public api key bytes)
  read_public-IsCalmIo key bytes =
      IsCalmIo->>= (say api ("Public key: " <> key)) _ (IsCalmIo-says _ tt)
        λ _. quiet (api.from_public_key bytes)

  read_key-IsCalmIo : (typ key : String) (bytes : Bytes) → IsCalmIo (read_key api typ key bytes)
  unfolding read_key
  read_key-IsCalmIo typ key bytes = elim (Bool-cases (lowers_to typ "pub")) [
    | inl public ↦ rw public (read_public-IsCalmIo key bytes)
    | inr other ↦ elim (Bool-cases (lowers_to typ "pvt")) [
      | inl private ↦ rw (other, private) (read_private-IsCalmIo key bytes)
      | inr wrong ↦ rw (other, wrong) (refused _)
    ]
  ]

  compute-IsCalmIo : (typ key : String) → IsCalmIo (compute api typ key)
  unfolding compute
  compute-IsCalmIo typ key = IsCalmIo-call (api.base64_decode key) _ λ decoded.
      IsCalmIo-lift (to_array api decoded) _ (to_array-IsCalm decoded) λ bytes.
        IsCalmIo->>= (read_key api typ key bytes) _ (read_key-IsCalmIo typ key bytes)
          λ read. IsCalmIo-says _ tt

  reported :
      (result : Outcome (Unit {0})) (h : List String)
      → IsCalm result
      → (report api result h).0 ≡ ok tt
  reported (ok done) h calm = refl
  reported (err e) h calm = refl
  reported (panic e) h calm = elim calm [ ]

  -- `main` ends normally whatever its arguments are: no argument makes it panic.
  pub main_ends : (args h : List String) → (main api args h).0 ≡ ok tt
  unfolding main IsCalmIo
  main_ends (program ∷ typ ∷ key ∷ []) h =
      reported (compute api typ key h).0 (compute api typ key h).1 (compute-IsCalmIo typ key h)
  main_ends [] h = refl
  main_ends (program ∷ []) h = refl
  main_ends (program ∷ typ ∷ []) h = refl
  main_ends (program ∷ typ ∷ key ∷ more ∷ rest) h = refl
