-- ===== src/Console/Election/Recover.antt =====
-- `process_recover_stake` of bin/console.rs as the world sees it.
use ever_node_tools.Prelude.{String, ◌<>◌, ◌≡◌, ◌↔◌, refl, sym, List, ◌∷◌, get_elem?}
use ever_node_tools.Prelude.Int.{ℤ}
use ever_node_tools.Outcome.{Outcome, ok}
use ever_node_tools.Outcome
use ever_node_tools.Io.{lift, after, returned}
use ever_node_tools.Rust.Word.{Bytes, as_u64}
use ever_node_tools.Console.Outside.{Api, World, Event, write_file, read_clock}
use ever_node_tools.Console.Receive.{Reply}
use ever_node_tools.Console.Send.{now}
use ever_node_tools.Console.Client.{save}
use ever_node_tools.Console.Message.{recover_body, cell_of}
use ever_node_tools.Console.Election.{path_or, write_body, process_recover_stake}

module _ (api : Api) (world : World api.Answer) where
  -- The recover message as the bytes of its bag of cells.
  abbrev pub recover_message : ℤ → Outcome Bytes
  recover_message time = Outcome.◌>>=◌ (cell_of api (recover_body (as_u64 time))) api.write_boc

  -- The clock is read once, the message is made with that time for the query id, and it is the
  -- reply and the content of the one file that is written.
  abbrev pub Recovered : String → List Event → Reply → List Event → Type 0
  Recovered path h reply h' =
      (time : ℤ) × ((now api world h).0 ≡ ok time)
      × (recover_message time ≡ ok reply.1)
      × (world.store (read_clock ∷ h) path reply.1 ≡ ok tt)
      × (h' ≡ write_file path reply.1 ∷ read_clock ∷ h)

  -- A `recover_stake` that returns has read the clock once and written one file, at the given path
  -- or at recover-query.boc; its content is the message with that time for the query id, and is
  -- what is returned. The node is not asked.
  pub process_recover_stake_trace :
      (params : List String) (h : List Event) {reply : Reply} {h' : List Event}
      → process_recover_stake api world params h ≡ (ok reply, h')
      → Recovered (path_or "recover-query.boc" (get_elem? params 0)) h reply h'
  unfolding process_recover_stake write_body now
  process_recover_stake_trace params h done =
      let path = path_or "recover-query.boc" (get_elem? params 0) in
      after (now api world) _ h done refl λ time at r1.
        after (lift (cell_of api (recover_body (as_u64 time)))) _ _ r1 refl λ cell celled r2.
          after (lift (api.write_boc cell)) _ _ r2 refl λ bytes written r3.
            after (save api world path bytes) _ _ r3 refl λ _ stored r4.
              returned (Recovered path h) r4 (time, at, rw celled written, stored, refl)

  abbrev pub recovered_text : String → Bytes → String
  recovered_text path bytes =
      "Message body is " <> (api.base64_encode bytes <> (" saved to path " <> path))

  recovered_line :
      (params : List String) (h : List Event) {reply : Reply} {h' : List Event}
      → process_recover_stake api world params h ≡ (ok reply, h')
      → reply.0 ≡ recovered_text (path_or "recover-query.boc" (get_elem? params 0)) reply.1
  unfolding process_recover_stake write_body now
  recovered_line params h done =
      let path = path_or "recover-query.boc" (get_elem? params 0) in
      after (now api world) _ h done refl λ time at r1.
        after (lift (cell_of api (recover_body (as_u64 time)))) _ _ r1 refl λ cell celled r2.
          after (lift (api.write_boc cell)) _ _ r2 refl λ bytes written r3.
            after (save api world path bytes) _ _ r3 refl
              λ _ stored r4. returned (λ reply g. reply.0 ≡ recovered_text path reply.1) r4 refl

  -- A `recover_stake` returns a reply exactly if the clock can be read, the message with that time for
  -- the query id can be made, and it can be written to the given path or to recover-query.boc; the
  -- reply is then this message with the line that tells its base64 and the path. The clock is read
  -- once, one file is written, and the node is not asked.
  pub process_recover_stake_iff :
      (params : List String) (h : List Event) (reply : Reply) (h' : List Event)
      → (process_recover_stake api world params h ≡ (ok reply, h')) ↔ (
          Recovered (path_or "recover-query.boc" (get_elem? params 0)) h reply h'
          × (reply.0 ≡ recovered_text (path_or "recover-query.boc" (get_elem? params 0)) reply.1))
  unfolding process_recover_stake write_body now
  process_recover_stake_iff params h reply h' =
      let path = path_or "recover-query.boc" (get_elem? params 0) in
      (
        λ done. (process_recover_stake_trace params h done, recovered_line params h done),
        λ ((time, at, made, stored, left), text).
            let (cell, celled, written) =
              Outcome.>>=-eq-ok (cell_of api (recover_body (as_u64 time))) api.write_boc made in
            rw (at, celled, written, stored) (λ i. (ok (sym text i, reply.1), sym left i)),
      )
