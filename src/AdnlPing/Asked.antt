-- ===== src/AdnlPing/Asked.antt =====
-- What bin/adnl_ping.rs has asked of the node when it reports no error.
use ever_node_tools.Prelude.{String, ◌≡◌, refl, sym, ap, ◌∙◌, inr, Option, none, some, List, ◌∷◌}
use ever_node_tools.Outcome.{ok, outcome, outcome-eq-ok}
use ever_node_tools.Rust.Word.{Bytes}
use ever_node_tools.Io.{Io, lift, perform, ◌>>=◌, ◌>>◌, after, after_call, >>=-eq-ok}
use ever_node_tools.AdnlPing.{
  Api, World, Event, new_runtime, with_config, start, add_local_workchain_overlay, add_peer,
  get_random_peers, get_capabilities, println, read_config, local_config, to_key, added,
  overlay_or_fail, ask, ping_from, ping, say, reply_line, pinging,
}

module _ (api : Api) (world : World api) (ip_addr : String) where
  -- what was done when each query is sent, and in the end
  abbrev pub first_query : api.KeyId → List (Event api) → List (Event api)
  first_query other_id h = println (pinging api world other_id ip_addr "GetRandomPeers") ∷ h

  abbrev pub second_query :
      api.KeyId → api.OverlayId → Option api.Peers → List (Event api) → List (Event api)
  second_query other_id overlay_id peers h =
      println (pinging api world other_id ip_addr "GetCapabilities")
      ∷ println (reply_line api world api.debug_peers peers)
      ∷ get_random_peers other_id overlay_id
      ∷ first_query other_id h

  -- The two queries went to one node and one overlay, each between the line that names it and the
  -- line that shows what the network answered to it.
  abbrev pub Asks : api.KeyId → api.OverlayId → List (Event api) → List (Event api) → Type 0
  Asks other_id overlay_id h g =
      (peers : Option api.Peers) × (reply : Option api.Capabilities) × (world.random_peers
          (first_query other_id h) other_id overlay_id
        ≡ inr peers)
      × (world.capabilities (second_query other_id overlay_id peers h) other_id overlay_id
          ≡ inr reply)
      × (g
          ≡ println (reply_line api world api.debug_capabilities reply)
            ∷ get_capabilities other_id overlay_id
            ∷ second_query other_id overlay_id peers h)

  -- Before the queries the node was added as a peer, and the network answered with its id.
  abbrev pub IsAsked : List (Event api) → Type 0
  IsAsked g =
      (local_id : api.KeyId) × (ip : api.IpAddress) × (key : api.Key) × (other_id : api.KeyId)
      × (overlay_id : api.OverlayId) × (before : List (Event api)) × (world.peer_added before
            local_id ip key
          ≡ inr (some other_id))
      × Asks other_id overlay_id (add_peer local_id ip key ∷ before) g

  abbrev ask_capabilities : api.KeyId → api.OverlayId → Io (Event api) (Unit {0})
  ask_capabilities other_id overlay_id = do
    say api world (pinging api world other_id ip_addr "GetCapabilities")
    reply ←
        perform (get_capabilities other_id overlay_id)
          (λ k. outcome (world.capabilities k other_id overlay_id))
    say api world (reply_line api world api.debug_capabilities reply)

  pub ask_lem :
      (other_id : api.KeyId) (overlay_id : api.OverlayId) (h g : List (Event api))
      → ask api world other_id ip_addr overlay_id h ≡ (ok tt, g)
      → Asks other_id overlay_id h g
  unfolding ask
  ask_lem other_id overlay_id h g done =
      let h1 = first_query other_id h in
      let (peers, e1, d1) =
        >>=-eq-ok
          (perform (get_random_peers other_id overlay_id)
            (λ k. outcome (world.random_peers k other_id overlay_id)))
          (λ peers.
            say api world (reply_line api world api.debug_peers peers)
            >> ask_capabilities other_id overlay_id)
          h1 done in
      let h2 = second_query other_id overlay_id peers h in
      let (reply, e2, d2) =
        >>=-eq-ok
          (perform (get_capabilities other_id overlay_id)
            (λ k. outcome (world.capabilities k other_id overlay_id)))
          (λ reply. say api world (reply_line api world api.debug_capabilities reply)) h2 d1 in
      (
        peers,
        reply,
        outcome-eq-ok (world.random_peers h1 other_id overlay_id) e1,
        outcome-eq-ok (world.capabilities h2 other_id overlay_id) e2,
        sym (ap (λ p. p.1) d2),
      )

  pub added-eq-ok :
      (answer : Option api.KeyId) {id : api.KeyId}
      → added api world answer ≡ ok id
      → answer ≡ some id
  added-eq-ok none e = cc
  added-eq-ok (some id) e = cc

  ping_from-IsAsked :
      (pub_key : String) (ip : api.IpAddress) (file_hash : Bytes) (adnl : api.Adnl)
      (h g : List (Event api))
      → ping_from api world pub_key ip_addr ip file_hash adnl h ≡ (ok tt, g)
      → IsAsked g
  unfolding ping_from
  ping_from-IsAsked pub_key ip file_hash adnl h g done =
      after_call (api.with_adnl_node_and_zero_state adnl file_hash _) _ h done λ overlay e1 d1.
        after_call (api.calc_overlay_short_id overlay _ _) _ h d1 λ overlay_id e2 d2.
          after (perform start (λ k. outcome (world.started k))) _ h d2 refl λ _ e3 d3.
            after
              (perform (add_local_workchain_overlay overlay_id)
                (λ k. outcome (world.overlay_added k overlay_id)))
              _ _ d3 refl
              λ joined e4 d4.
                after (lift (overlay_or_fail api world overlay_id joined)) _ _ d4 refl λ _ e5 d5.
                  after_call (api.key_by_tag adnl _) _ _ d5 λ local_key e6 d6.
                    after_call (api.base64_decode pub_key) _ _ d6 λ bytes e7 d7.
                      after (lift (to_key api world bytes)) _ _ d7 refl λ key e8 d8.
                        after
                          (perform (add_peer (api.key_id local_key) ip key)
                            (λ k. outcome (world.peer_added k (api.key_id local_key) ip key)))
                          _ _ d8 refl
                          λ answer e9 d9.
                            after (lift (added api world answer)) _ _ d9 refl λ other_id e10 d10. (
                              api.key_id local_key,
                              ip,
                              key,
                              other_id,
                              overlay_id,
                              _,
                              outcome-eq-ok (world.peer_added _ (api.key_id local_key) ip key) e9
                                  ∙ ap inr (added-eq-ok answer e10),
                              ask_lem other_id overlay_id _ g d10,
                            )

  -- If `ping` of bin/adnl_ping.rs returns without an error, then it has ended with the two queries to
  -- the id that the network gave for the node, in this order, and has shown what was answered.
  pub ping-IsAsked :
      (pub_key global_cfgfile : String) (local_cfgfile : Option String) (h g : List (Event api))
      → ping api world pub_key ip_addr global_cfgfile local_cfgfile h ≡ (ok tt, g)
      → IsAsked g
  unfolding ping
  ping-IsAsked pub_key global_cfgfile local_cfgfile h g done =
      after (lift (read_config api world api.read_global global_cfgfile "global")) _ h done refl
        λ global_cfg e1 d1.
          after_call (api.zero_state_file_hash global_cfg) _ h d1 λ file_hash e2 d2.
            after_call (api.from_versioned_string ip_addr) _ h d2 λ ip e3 d3.
              after (perform new_runtime (λ k. outcome (world.runtime k))) _ h d3 refl λ _ e4 d4.
                after (lift (local_config api world local_cfgfile)) _ _ d4 refl λ config e5 d5.
                  after (perform (with_config config) (λ k. outcome (world.node k config))) _ _ d5
                    refl λ adnl e6 d6. ping_from-IsAsked pub_key ip file_hash adnl _ g d6
