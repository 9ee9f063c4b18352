-- ===== src/Console/Election/Whole.antt =====
-- A bid from the check of its parameters to the file with the message.
use ever_node_tools.Prelude.{String, ◌≡◌, ◌↔◌, refl, sym, List, [], ◌∷◌, length, get_elem?}
use ever_node_tools.Prelude.Int.{ℤ}
use ever_node_tools.Outcome.{Outcome, ok}
use ever_node_tools.Outcome
use ever_node_tools.Io.{lift, after, returned}
use ever_node_tools.Rust.Word.{Bytes, as_u64}
use ever_node_tools.Console.Outside.{
  Api, World, Event, IsLawful, IsHash, AreBytes, write_file, read_clock, Request,
}
use ever_node_tools.Console.Params.{try_into_32}
use ever_node_tools.Console.Receive.{Reply}
use ever_node_tools.Console.Send.{now}
use ever_node_tools.Console.Client.{save, process_command}
use ever_node_tools.Console.Bid.{Config, Bid, check_bid}
use ever_node_tools.Console.Bid.Laws.{IsChecked}
use ever_node_tools.Console.Bid.Accepts.{Times, check_bid_iff}
use ever_node_tools.Console.Election.Answers.{HasSigned, sign_answered, sign_runs}
use ever_node_tools.Console.Election.Recover.{recovered_text}
use ever_node_tools.Console.Message.{Keys, bytes_to_sign, signed_body, signed_cell}
use ever_node_tools.Console.Message.Laws.{bytes_to_sign-AreBytes}
use ever_node_tools.Console.Election.{
  path_or, make_keys, sign_bid, write_body, write_bid, process_election_bid,
}
use ever_node_tools.Console.Election.Steps.{sign_sends}
use ever_node_tools.Console.Election.Trace.{keys_made, AreMade, make_keys_trace, make_keys_runs}
use ever_node_tools.Console.Client.Answers.{sent}
use ever_node_tools.Io.{after_all}
use ever_node_tools.Console.Params.Laws.{try_into_32_same, try_into_32_fits}

module _ (api : Api) (world : World api.Answer) where
  -- The message as the bytes of its bag of cells.
  abbrev pub message : ℤ → Bid → Keys → Bytes → Outcome Bytes
  message v bid keys signature =
      Outcome.◌>>=◌ (signed_cell api (signed_body (as_u64 v) bid keys) signature) api.write_boc

  -- The node signs the bytes of the bid, and the key of 32 bytes verifies the signature.
  abbrev Signed : IsLawful api → Bid → Keys → List Event → Bytes → Type 0
  Signed laws bid keys h signature =
      HasSigned api world laws h keys.perm (bytes_to_sign bid keys) signature
      × (length keys.pub_key ≡ 32)
      × (api.verify keys.pub_key (bytes_to_sign bid keys) signature ≡ ok tt)

  abbrev sign_sent : IsLawful api → Bid → Keys → List Event → List Event
  sign_sent laws bid keys h = sent laws (Request.sign keys.perm (bytes_to_sign bid keys)) ∷ h

  module _ (laws : IsLawful api) (bid : Bid) (keys : Keys) (h : List Event)
      (wallet : AreBytes bid.wallet_id) (perm : IsHash keys.perm) (adnl : IsHash keys.adnl) where
    pub sign_bid_trace :
        {signature : Bytes} {h' : List Event}
        → sign_bid api world bid keys h ≡ (ok signature, h')
        → Signed laws bid keys h signature × (h' ≡ sign_sent laws bid keys h)
    unfolding sign_bid
    sign_bid_trace done =
        let bytes = bytes_to_sign bid keys in
        let are = bytes_to_sign-AreBytes bid keys wallet adnl.0 in
        after
          (process_command api world "sign"
            (api.hex_encode_upper keys.perm ∷ api.hex_encode_upper bytes ∷ []))
          _ h done (sign_sends api world laws h keys.perm perm bytes are)
          λ signed given r1. after (lift (try_into_32 keys.pub_key)) _ _ r1 refl λ pub_key e r2.
            after (lift (api.verify pub_key bytes signed.1)) _ _ r2 refl λ _ verified r3.
              let (size, same) = try_into_32_same keys.pub_key e in
              returned
                (λ signature g. Signed laws bid keys h signature × (g ≡ sign_sent laws bid keys h))
                r3
                (
                  (
                    sign_answered api world laws h keys.perm perm bytes are given,
                    size,
                    rw same at verified,
                  ),
                  refl,
                )

    sign_bid_runs :
        (signature : Bytes)
        → Signed laws bid keys h signature
        → sign_bid api world bid keys h ≡ (ok signature, sign_sent laws bid keys h)
    unfolding sign_bid
    sign_bid_runs signature (signed, size, verified) = rw (
      sign_runs api world laws h keys.perm perm (bytes_to_sign bid keys)
          (bytes_to_sign-AreBytes bid keys wallet adnl.0) signed,
      try_into_32_fits keys.pub_key size,
      verified,
    )

  -- The message is made at the time `v`, can be stored, and is the reply.
  abbrev Written : Bid → Keys → Bytes → String → List Event → Reply → ℤ → Type 0
  Written bid keys signature path h reply v =
      ((now api world h).0 ≡ ok v)
      × (message v bid keys signature ≡ ok reply.1)
      × (world.store (read_clock ∷ h) path reply.1 ≡ ok tt)
      × (reply.0 ≡ recovered_text api world path reply.1)

  abbrev write_left : String → Reply → List Event → List Event
  write_left path reply h = write_file path reply.1 ∷ read_clock ∷ h

  write_bid_trace :
      (bid : Bid) (keys : Keys) (signature : Bytes) (path : String) (h : List Event) {reply : Reply}
      {h' : List Event}
      → write_bid api world bid keys signature path h ≡ (ok reply, h')
      → (v : ℤ) × Written bid keys signature path h reply v × (h' ≡ write_left path reply h)
  unfolding write_bid write_body now
  write_bid_trace bid keys signature path h done = after (now api world) _ h done refl λ v at_v r1.
      after (lift (signed_cell api (signed_body (as_u64 v) bid keys) signature)) _ _ r1 refl
        λ cell celled r2. after (lift (api.write_boc cell)) _ _ r2 refl λ bytes written r3.
          after (save api world path bytes) _ _ r3 refl λ _ stored r4.
            returned
              (λ reply g.
                (v : ℤ) × Written bid keys signature path h reply v × (g ≡ write_left path reply h))
              r4 (v, (at_v, rw celled written, stored, refl), refl)

  write_bid_runs :
      (bid : Bid) (keys : Keys) (signature : Bytes) (path : String) (h : List Event) (reply : Reply)
      (v : ℤ)
      → Written bid keys signature path h reply v
      → write_bid api world bid keys signature path h ≡ (ok reply, write_left path reply h)
  unfolding write_bid write_body now
  write_bid_runs bid keys signature path h reply v (at, made, stored, text) =
      let (cell, celled, written) =
        Outcome.>>=-eq-ok (signed_cell api (signed_body (as_u64 v) bid keys) signature)
          api.write_boc made in
      rw (at, celled, written, stored) (λ i. (ok (sym text i, reply.1), write_left path reply h))

  -- A whole bid, as the world sees it: its parameters, and what the clock, the node and the file
  -- system answer to each call, at the history at which it is made.
  pub record IsBid (laws : IsLawful api) (config : Config api.F32) (params : List String)
      (h : List Event) (reply : Reply) (bid : Bid) (keys : Keys) (signature : Bytes) (t u v : ℤ)
      : Type 0 where
    pub times : Times api params bid
    pub checked : IsChecked api config bid
    pub perm_hash : IsHash keys.perm
    pub adnl_hash : IsHash keys.adnl
    pub made : AreMade api world laws bid h keys t u
    pub signed : Signed laws bid keys (keys_made laws bid keys.perm keys.adnl t u h) signature
    pub written :
        Written bid keys signature
          (path_or "validator-query.boc" (get_elem? params 2))
          (sign_sent laws bid keys (keys_made laws bid keys.perm keys.adnl t u h))
          reply
          v

  abbrev pub bid_left :
      IsLawful api → List String → List Event → Reply → Bid → Keys → ℤ → ℤ → List Event
  bid_left laws params h reply bid keys t u =
      write_left (path_or "validator-query.boc" (get_elem? params 2)) reply
        (sign_sent laws bid keys (keys_made laws bid keys.perm keys.adnl t u h))

  abbrev pub Conversation :
      IsLawful api → Config api.F32 → List String → List Event → Reply → List Event → Type 0
  Conversation laws config params h reply h' =
      (bid : Bid) × (keys : Keys) × (signature : Bytes) × (t u v : ℤ) × IsBid laws config params h
        reply bid keys signature t u v
      × (h' ≡ bid_left laws params h reply bid keys t u)

  pub wallet_bytes :
      (laws : IsLawful api) {config : Config api.F32} {bid : Bid}
      → IsChecked api config bid
      → AreBytes bid.wallet_id
  wallet_bytes laws c =
      let (_, hex_text, _, _, decoded) = c.wallet in laws.hex.decode-AreBytes hex_text _ decoded

  process_election_bid_trace :
      (laws : IsLawful api) (config : Config api.F32) (params : List String) (h : List Event)
      {reply : Reply} {h' : List Event}
      → process_election_bid api world config params h ≡ (ok reply, h')
      → Conversation laws config params h reply h'
  unfolding process_election_bid
  process_election_bid_trace laws config params h done =
      let path = path_or "validator-query.boc" (get_elem? params 2) in
      after (lift (check_bid api config params)) _ h done refl λ bid checks r1.
        let (times, c) = (check_bid_iff api config params bid).0 checks in
        after_all (make_keys api world bid) _ _ r1 λ keys g made r2.
          let (t, u, perm, adnl, answers, e1) =
            make_keys_trace api world laws bid c.elect_fits c.expire_fits h made in
          after_all (sign_bid api world bid keys) _ _ r2 λ signature g2 signing r3.
            let (signed, e2) =
              sign_bid_trace laws bid keys g (wallet_bytes laws c) perm adnl signing in
            let (v, written, e3) = write_bid_trace bid keys signature path g2 r3 in
            (
              bid,
              keys,
              signature,
              t,
              u,
              v,
              record {
                times = times;
                checked = c;
                perm_hash = perm;
                adnl_hash = adnl;
                made = answers;
                signed = rw e1 at signed;
                written = rw (e2, e1) at written;
              },
              rw (e3, e2, e1),
            )

  -- Where hex, serialization and key hashes are as `IsLawful` says: a bid returns a reply exactly if its
  -- parameters pass the checks, the clock can be read three times, the node accepts the eight requests,
  -- whose hashes and times left come from the parameters, the clock and its answers before, the exported
  -- key has 32 bytes and verifies the signature of the bid's bytes, and the message can be made and
  -- stored at the given path or at validator-query.boc. The reply is then the message with the line that
  -- tells its base64 and the path, and the requests and clock readings, in this order, and the one file
  -- are all that is done outside.
  pub process_election_bid_iff :
      (laws : IsLawful api) (config : Config api.F32) (params : List String) (h : List Event)
      (reply : Reply) (h' : List Event)
      → (process_election_bid api world config params h ≡ (ok reply, h'))
        ↔ Conversation laws config params h reply h'
  unfolding process_election_bid
  process_election_bid_iff laws config params h reply h' = (
    process_election_bid_trace laws config params h,
    λ (bid, keys, signature, t, u, v, b, left).
        let wallet = wallet_bytes laws b.checked in
        rw (
          (check_bid_iff api config params bid).1 (b.times, b.checked),
          make_keys_runs api world laws bid b.checked.elect_fits b.checked.expire_fits h keys t u
              b.perm_hash b.adnl_hash b.made,
          sign_bid_runs laws bid keys _ wallet b.perm_hash b.adnl_hash signature b.signed,
          write_bid_runs bid keys signature _ _ reply v b.written,
          left,
        ),
  )
