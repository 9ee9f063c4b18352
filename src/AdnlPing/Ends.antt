-- ===== src/AdnlPing/Ends.antt =====
-- When `ping` of bin/adnl_ping.rs returns without an error.
use ever_node_tools.Prelude.{
  ◌-◌, ◌^◌, String, ◌≡◌, ◌↔◌, refl, ap, ◌∙◌, inr, true, false, Bool, Option, some, List, ◌∷◌,
  length, arith,
}
use ever_node_tools.Prelude.Int.{negsuc}
use ever_node_tools.Outcome.{ok, outcome, outcome-eq-ok}
use ever_node_tools.Rust.Word.{Bytes}
use ever_node_tools.Io.{lift, perform, after, after_call}
use ever_node_tools.AdnlPing.{
  Api, World, Event, new_runtime, with_config, start, add_local_workchain_overlay, add_peer,
  read_config, local_config, to_key, added, overlay_or_fail, ask, ping_from, ping,
}
use ever_node_tools.AdnlPing.Asked.{Asks, ask_lem, added-eq-ok}

module _ (api : Api) (world : World api) (ip_addr : String) where
  -- The node is started in the overlay of the masterchain, the peer with this public key of 32 bytes
  -- is added, and the two queries are answered.
  abbrev pub AsksFrom :
      String → api.IpAddress → Bytes → api.Adnl → List (Event api) → List (Event api) → Type 0
  AsksFrom pub_key ip file_hash adnl h g =
      (overlay : api.Overlay) × (overlay_id : api.OverlayId) × (local_key : api.Key)
      × (bytes : Bytes) × (other_id : api.KeyId) × (api.with_adnl_node_and_zero_state adnl file_hash
            2
          ≡ inr overlay)
      × (api.calc_overlay_short_id overlay (negsuc 0) (negsuc (2 ^ 63 - 1)) ≡ inr overlay_id)
      × (world.started h ≡ inr tt)
      × (world.overlay_added (start ∷ h) overlay_id ≡ inr true)
      × (api.key_by_tag adnl 2 ≡ inr local_key)
      × (api.base64_decode pub_key ≡ inr bytes)
      × (length bytes ≡ 32)
      × (world.peer_added (add_local_workchain_overlay overlay_id ∷ start ∷ h)
            (api.key_id local_key) ip (api.from_public_key bytes)
          ≡ inr (some other_id))
      × Asks api world ip_addr other_id overlay_id
          (add_peer (api.key_id local_key) ip (api.from_public_key bytes)
            ∷ add_local_workchain_overlay overlay_id
            ∷ start
            ∷ h)
          g

  -- The same from the configurations on, which are read first.
  abbrev pub Pings : String → String → Option String → List (Event api) → List (Event api) → Type 0
  Pings pub_key global_cfgfile local_cfgfile h g =
      (global_cfg : api.Global) × (file_hash : Bytes) × (ip : api.IpAddress)
      × (config : api.NodeConfig) × (adnl : api.Adnl) × (read_config api world api.read_global
            global_cfgfile "global"
          ≡ ok global_cfg)
      × (api.zero_state_file_hash global_cfg ≡ inr file_hash)
      × (api.from_versioned_string ip_addr ≡ inr ip)
      × (world.runtime h ≡ inr tt)
      × (local_config api world local_cfgfile ≡ ok config)
      × (world.node (new_runtime ∷ h) config ≡ inr adnl)
      × AsksFrom pub_key ip file_hash adnl (with_config config ∷ new_runtime ∷ h) g

  to_key-eq-ok :
      (bytes : Bytes) {key : api.Key}
      → to_key api world bytes ≡ ok key
      → (length bytes ≡ 32) × (api.from_public_key bytes ≡ key)
  unfolding to_key
  to_key-eq-ok bytes done = ground arith

  to_key_fits :
      (bytes : Bytes) → length bytes ≡ 32 → to_key api world bytes ≡ ok (api.from_public_key bytes)
  unfolding to_key
  to_key_fits bytes size = ground arith

  Asks-ask :
      (other_id : api.KeyId) (overlay_id : api.OverlayId) (h g : List (Event api))
      → Asks api world ip_addr other_id overlay_id h g
      → ask api world other_id ip_addr overlay_id h ≡ (ok tt, g)
  unfolding ask
  Asks-ask other_id overlay_id h g (peers, reply, e1, e2, left) = rw (e1, e2, left)

  overlay_or_fail-eq-ok :
      (overlay_id : api.OverlayId) (joined : Bool)
      → overlay_or_fail api world overlay_id joined ≡ ok tt
      → joined ≡ true
  overlay_or_fail-eq-ok overlay_id true done = refl
  overlay_or_fail-eq-ok overlay_id false done = cc

  module _ (pub_key : String) (ip : api.IpAddress) (file_hash : Bytes) (adnl : api.Adnl)
      (h g : List (Event api)) where
    ping_from-AsksFrom :
        ping_from api world pub_key ip_addr ip file_hash adnl h ≡ (ok tt, g)
        → AsksFrom pub_key ip file_hash adnl h g
    unfolding ping_from
    ping_from-AsksFrom done =
        after_call (api.with_adnl_node_and_zero_state adnl file_hash _) _ h done λ overlay e1 d1.
          after_call (api.calc_overlay_short_id overlay _ _) _ h d1 λ overlay_id e2 d2.
            after (perform start (λ k. outcome (world.started k))) _ h d2 refl λ _ e3 d3.
              after
                (perform (add_local_workchain_overlay overlay_id)
                  (λ k. outcome (world.overlay_added k overlay_id)))
                _ _ d3 refl
                λ joined e4 d4.
                  after (lift (overlay_or_fail api world overlay_id joined)) _ _ d4 refl λ _ e5 d5.
                    after_call (api.key_by_tag adnl _) _ _ d5 λ local_key e6 d6.
                      after_call (api.base64_decode pub_key) _ _ d6 λ bytes e7 d7.
                        after (lift (to_key api world bytes)) _ _ d7 refl λ key e8 d8.
                          let (size, same) = to_key-eq-ok bytes e8 in
                          after
                            (perform
                              (add_peer (api.key_id local_key) ip (api.from_public_key bytes))
                              (λ k. outcome (
                                world.peer_added k (api.key_id local_key) ip
                                  (api.from_public_key bytes))))
                            _ _ (rw (← same) at d8) refl
                            λ answer e9 d9.
                              after (lift (added api world answer)) _ _ d9 refl λ other_id e10 d10.
                                (
                                  overlay,
                                  overlay_id,
                                  local_key,
                                  bytes,
                                  other_id,
                                  e1,
                                  e2,
                                  outcome-eq-ok (world.started h) e3,
                                  outcome-eq-ok (world.overlay_added _ overlay_id) e4
                                      ∙ ap inr (overlay_or_fail-eq-ok overlay_id joined e5),
                                  e6,
                                  e7,
                                  size,
                                  outcome-eq-ok
                                        (world.peer_added _ (api.key_id local_key) ip
                                          (api.from_public_key bytes))
                                        e9
                                      ∙ ap inr (added-eq-ok api world ip_addr answer e10),
                                  ask_lem api world ip_addr other_id overlay_id _ g d10,
                                )

    AsksFrom-ping_from :
        AsksFrom pub_key ip file_hash adnl h g
        → ping_from api world pub_key ip_addr ip file_hash adnl h ≡ (ok tt, g)
    unfolding ping_from
    AsksFrom-ping_from
          (
            overlay, overlay_id, local_key, bytes, other_id, e1, e2, e3, e4, e5, e6, size, e7, asks,
          ) =
        rw (e1, e2, e3, e4, e5, e6, to_key_fits bytes size, e7)
          (Asks-ask other_id overlay_id _ g asks)

  -- ping returns without an error exactly if the configurations and the address can be read, the node
  -- starts and joins the overlay of the masterchain, the peer with the given public key, of 32 bytes,
  -- gets an id, and both queries to this id are answered, be it by nothing; these steps, with the lines
  -- that name each query and show its answer, are all that is done, in this order.
  pub ping_iff :
      (pub_key global_cfgfile : String) (local_cfgfile : Option String) (h g : List (Event api))
      → (ping api world pub_key ip_addr global_cfgfile local_cfgfile h ≡ (ok tt, g))
        ↔ Pings pub_key global_cfgfile local_cfgfile h g
  unfolding ping
  ping_iff pub_key global_cfgfile local_cfgfile h g = (
    λ done.
        after (lift (read_config api world api.read_global global_cfgfile "global")) _ h done refl
          λ global_cfg e1 d1.
            after_call (api.zero_state_file_hash global_cfg) _ h d1 λ file_hash e2 d2.
              after_call (api.from_versioned_string ip_addr) _ h d2 λ ip e3 d3.
                after (perform new_runtime (λ k. outcome (world.runtime k))) _ h d3 refl λ _ e4 d4.
                  after (lift (local_config api world local_cfgfile)) _ _ d4 refl λ config e5 d5.
                    after (perform (with_config config) (λ k. outcome (world.node k config))) _ _ d5
                      refl
                      λ adnl e6 d6. (
                        global_cfg,
                        file_hash,
                        ip,
                        config,
                        adnl,
                        e1,
                        e2,
                        e3,
                        outcome-eq-ok (world.runtime h) e4,
                        e5,
                        outcome-eq-ok (world.node (new_runtime ∷ h) config) e6,
                        ping_from-AsksFrom pub_key ip file_hash adnl _ g d6,
                      ),
    λ (global_cfg, file_hash, ip, config, adnl, e1, e2, e3, e4, e5, e6, asks).
        rw (e1, e2, e3, e4, e5, e6) (AsksFrom-ping_from pub_key ip file_hash adnl _ g asks),
  )
