-- ===== src/KeyId.antt =====
-- bin/keyid.rs: the id of an Ed25519 key. Base64 and the keys are ton_types', and parameters here;
-- the build is the default one, without the feature export_key.
pub mod Laws
use ever_node_tools.Prelude.{
  ℕ, ◌+◌, Char, code, String, ◌<>◌, Bool, true, false, str_eq, ◌≡◌, refl, ◌&&◌, inl, inr, Option,
  none, some, List, [], ◌∷◌, leb, ◌==◌, length, if◌then◌else◌,
}
use ever_node_tools.Outcome.{Outcome, ok, err, panic}
use ever_node_tools.Io.{Io, pure, fail, lift, perform, ◌>>=◌, ◌>>◌}
use ever_node_tools.Rust.Word.{Bytes}
use ever_node_tools.Rust.Utf8.{from_u32}
use ever_node_tools.AdnlResolve.Dht.{Result, outcome}

-- What the program calls of ton_types; none of it panics.
pub record KeyApi : Type 1 where
  pub base64_decode : String → Result Bytes
  pub base64_encode : Bytes → String
  pub Key : Type 0
  pub from_public_key : Bytes → Key
  pub from_private_key : Bytes → Result Key
  pub pub_key : Key → Result Bytes
  pub id : Key → Bytes

abbrev lower_code : ℕ → ℕ
lower_code c = if leb 65 c && leb c 90 then c + 32 else c

-- `typ.to_lowercase().as_str() == word` for a word of the letters b, p, t, u and v: no character but
-- these and their capitals has one of them as its lower case.
unfoldable pub lowers_to : String → String → Bool
lowers_to String.[] String.[] = true
lowers_to String.[] (String.◌∷◌ d word) = false
lowers_to (String.◌∷◌ c typ) String.[] = false
lowers_to (String.◌∷◌ c typ) (String.◌∷◌ d word) =
    lower_code (code c) == code d && lowers_to typ word

module _ (api : KeyApi) where
  abbrev pub say : String → Io String (Unit {0})
  say text = perform text (λ h. ok tt)

  abbrev pub to_array : Bytes → Outcome Bytes
  to_array bytes = if length bytes == 32 then ok bytes else err "Cannot decode key properly"

  -- the public key of a private one is printed too
  abbrev pub show_public : api.Key → Bytes → Io String api.Key
  show_public private public = do say ("Public key: " <> api.base64_encode public); pure private

  abbrev pub with_public : api.Key → Io String api.Key
  with_public private = do public ← lift (outcome (api.pub_key private)); show_public private public

  unfoldable pub read_private : String → Bytes → Io String api.Key
  read_private key bytes = do
    say ("Private key: " <> key)
    private ← lift (outcome (api.from_private_key bytes))
    with_public private

  abbrev pub read_public : String → Bytes → Io String api.Key
  read_public key bytes = do say ("Public key: " <> key); pure (api.from_public_key bytes)

  -- the key of the type
  unfoldable pub read_key : String → String → Bytes → Io String api.Key
  read_key typ key bytes =
      if lowers_to typ "pub"
      then read_public key bytes
      else if lowers_to typ "pvt"
      then read_private key bytes
      else fail ("Wrong key type: expected pub|pvt, found " <> typ)

  abbrev pub show_id : api.Key → Io String (Unit {0})
  show_id key = say ("Key id: " <> api.base64_encode (api.id key))

  abbrev pub with_id : String → String → Bytes → Io String (Unit {0})
  with_id typ key bytes = do read ← read_key typ key bytes; show_id read

  abbrev pub of_bytes : String → String → Bytes → Io String (Unit {0})
  of_bytes typ key decoded = do bytes ← lift (to_array decoded); with_id typ key bytes

  unfoldable pub compute : String → String → Io String (Unit {0})
  compute typ key = do decoded ← lift (outcome (api.base64_decode key)); of_bytes typ key decoded

  abbrev pub report : Outcome (Unit {0}) → Io String (Unit {0})
  report (ok done) = pure tt
  report (err e) = say ("Key ID computing error: " <> e)
  report (panic e) = lift (panic e)

  unfoldable pub main : List String → Io String (Unit {0})
  main (program ∷ typ ∷ key ∷ []) h = let (result, h') = compute typ key h in report result h'
  main args h = say "Usage: keyid pub|pvt <key in base64>" h
