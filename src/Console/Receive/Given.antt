-- ===== src/Console/Receive/Given.antt =====
-- The replies of the commands of an election bid of bin/console.rs that read an answer, and the
-- answers that give them.
use ever_node_tools.Prelude.{◌<>◌, ◌≡◌, ap, ◌∙◌, some, []}
use ever_node_tools.Outcome.{ok, ok_or, ok_or-eq-ok, after}
use ever_node_tools.Rust.Word.{Bytes}
use ever_node_tools.Console.Outside.{Api}
use ever_node_tools.Console.Receive.{
  Reply, both_codes, downcast, receive_key_hash, receive_public_key, receive_signature,
  receive_success,
}

abbrev pub success_reply : Reply
success_reply = ("success", [])

module _ (api : Api) where
  abbrev pub key_reply : Bytes → Reply
  key_reply hash = ("received public key hash: " <> both_codes api hash, hash)

  abbrev pub export_reply : Bytes → Reply
  export_reply key = ("imported key: " <> both_codes api key, key)

  abbrev pub sign_reply : Bytes → Reply
  sign_reply signature = ("got signature: " <> both_codes api signature, signature)

  pub key_given :
      (answer : api.Answer) {r : Reply}
      → receive_key_hash api answer ≡ ok r
      → api.as_key_hash answer ≡ some r.1
  unfolding receive_key_hash
  key_given answer {r} done =
      after (downcast api "KeyHash" api.as_key_hash answer) _ done λ hash e same.
        let found = ok_or-eq-ok _ (api.as_key_hash answer) e in
        let last : hash ≡ r.1 = cc in found ∙ ap some last

  pub gives_key :
      (answer : api.Answer) {hash : Bytes}
      → api.as_key_hash answer ≡ some hash
      → receive_key_hash api answer ≡ ok (key_reply hash)
  unfolding receive_key_hash
  gives_key answer e = rw e

  pub public_key_given :
      (answer : api.Answer) {r : Reply}
      → receive_public_key api answer ≡ ok r
      → api.as_public_key answer ≡ some (some r.1)
  unfolding receive_public_key
  public_key_given answer {r} done =
      after (downcast api "PublicKey" api.as_public_key answer) _ done λ key e more.
        after (ok_or "Public key not found in answer!" key) _ more λ pub_key e2 same.
          let last : pub_key ≡ r.1 = cc in
          ok_or-eq-ok _ (api.as_public_key answer) e ∙ ap some (ok_or-eq-ok _ key e2 ∙ ap some last)

  pub gives_public_key :
      (answer : api.Answer) {key : Bytes}
      → api.as_public_key answer ≡ some (some key)
      → receive_public_key api answer ≡ ok (export_reply key)
  unfolding receive_public_key
  gives_public_key answer e = rw e

  pub signature_given :
      (answer : api.Answer) {r : Reply}
      → receive_signature api answer ≡ ok r
      → api.as_signature answer ≡ some r.1
  unfolding receive_signature
  signature_given answer {r} done =
      after (downcast api "Signature" api.as_signature answer) _ done λ signature e same.
        let last : signature ≡ r.1 = cc in ok_or-eq-ok _ (api.as_signature answer) e ∙ ap some last

  pub gives_signature :
      (answer : api.Answer) {signature : Bytes}
      → api.as_signature answer ≡ some signature
      → receive_signature api answer ≡ ok (sign_reply signature)
  unfolding receive_signature
  gives_signature answer e = rw e

  pub success_given :
      (answer : api.Answer) {r : Reply}
      → receive_success api answer ≡ ok r
      → api.as_success answer ≡ some tt
  unfolding receive_success
  success_given answer done =
      after (downcast api "Success" api.as_success answer) _ done λ _ e _. ok_or-eq-ok _ _ e

  pub gives_success :
      (answer : api.Answer)
      → api.as_success answer ≡ some tt
      → receive_success api answer ≡ ok success_reply
  unfolding receive_success
  gives_success answer e = rw e
