-- ===== src/Tests/Keys.antt =====
-- Two keys that belong together.
use ever_node_tools.Prelude.{str_eq, ◌≡◌, refl, true, false, inl, inr, ◌∷◌, if◌then◌else◌}
use ever_node_tools.Rust.Word.{Bytes}
use ever_node_tools.KeyId.{KeyApi, lowers_to}
use ever_node_tools.Tests.Node.{repeat}
use ever_node_tools.Tests.Hex.{encode_upper}

abbrev keys : KeyApi
keys = record {
  base64_decode = λ text.
      if str_eq text "private"
      then inr (repeat 32 1)
      else if str_eq text "public"
      then inr (repeat 32 2)
      else inl "Invalid base64";
  base64_encode = encode_upper;
  Key = Bytes;
  from_public_key = λ bytes. bytes;
  from_private_key = λ bytes. inr (repeat 32 2);
  pub_key = inr;
  id = λ key. 3 ∷ key;
}

not_public : lowers_to "PVT" "pub" ≡ false
unfolding lowers_to
not_public = refl

is_private : lowers_to "PVT" "pvt" ≡ true
unfolding lowers_to
is_private = refl

is_public : lowers_to "Pub" "pub" ≡ true
unfolding lowers_to
is_public = refl
