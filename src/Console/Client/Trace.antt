-- ===== src/Console/Client/Trace.antt =====
-- What `process_command` of bin/console.rs does outside, and where its reply comes from.
use ever_node_tools.Prelude.{
  String, ◌<>◌, ◌≡◌, ◌↔◌, sym, ap, ◌∙◌, ◌⊎◌, inl, inr, Option-cases, none, List, ◌∷◌,
}
use ever_node_tools.Outcome.{ok, panic, map_err as map_outcome, map_err-eq-ok}
use ever_node_tools.Io.{pure, lift, map_err, ◌>>=◌, >>=-eq-ok, continue_quiet}
use ever_node_tools.Prelude.Int.{ℤ}
use ever_node_tools.Rust.Word.{Bytes, as_i32}
use ever_node_tools.Console.Outside.{Api, World, Event, send_query, read_clock}
use ever_node_tools.Console.Send.{Query, now, before_epoch, command_send}
use ever_node_tools.Console.Receive.{Reply}
use ever_node_tools.Console.Client.{ask, command_receive, read_answer, process_command}

module _ (api : Api) (world : World api.Answer) where
  -- The command reads its answer without an effect.
  abbrev pub IsQuiet : String → Type 0
  IsQuiet name =
      (answer : api.Answer) (params : List String) (h : List Event)
      → (command_receive api world name answer params h).1 ≡ h

  read_answer_quiet :
      (query : Query api) (name : String) (params : List String) (answer : api.Answer)
      (h : List Event)
      → IsQuiet name
      → (read_answer api world query name params answer h).1 ≡ h
  unfolding read_answer
  read_answer_quiet query name params answer h quiet =
      elim (Option-cases (api.as_control_query_error answer)) [
        | inl none_found ↦ rw (none_found, read_answer) (quiet answer params h)
        | inr (e, found) ↦ rw (found, read_answer)
      ]

  -- A command whose request is made and serialized sends it, and does nothing else, whatever the
  -- node answers.
  pub process_command_sends :
      (name : String) (params : List String) (h : List Event) (query : Query api) {h' : List Event}
      {bytes : Bytes}
      → IsQuiet name
      → command_send api world name params h ≡ (ok query, h')
      → api.serialize_request query ≡ ok bytes
      → (process_command api world name params h).1 ≡ send_query bytes ∷ h'
  unfolding process_command
  process_command_sends name params h query {h'} {bytes} quiet made serialized =
      rw (made, serialized)
        (continue_quiet (map_outcome _ (world.answer h' bytes))
          (read_answer api world query name params) (send_query bytes ∷ h')
          (λ answer. read_answer_quiet query name params answer _ quiet))

  pub clock_cases :
      (h : List Event)
      → ((t : ℤ) × (now api world h ≡ (ok t, read_clock ∷ h)))
        ⊎ (now api world h ≡ (panic before_epoch, read_clock ∷ h))
  unfolding now
  clock_cases h = elim (Option-cases (world.unix_time h)) [
    | inl before ↦ inr (rw before)
    | inr (t, found) ↦ inl (as_i32 t, rw found)
  ]

  pub process_command_panics :
      (name : String) (params : List String) (h : List Event) (query : ℤ → Query api) {e : String}
      → command_send api world name params h ≡ (now api world >>= λ t. pure (query t)) h
      → now api world h ≡ (panic e, read_clock ∷ h)
      → (process_command api world name params h).0 ≡ panic e
  unfolding process_command
  process_command_panics name params h query made before = rw (made, before)

  -- A command whose request holds the time reads the clock and sends the request, if it returns a
  -- value at all.
  pub process_command_sends_at :
      (name : String) (params : List String) (h : List Event) (query : ℤ → Query api)
      (encode : Query api → Bytes) {r : Reply}
      → IsQuiet name
      → command_send api world name params h ≡ (now api world >>= λ t. pure (query t)) h
      → ((q : Query api) → api.serialize_request q ≡ ok (encode q))
      → (process_command api world name params h).0 ≡ ok r
      → (t : ℤ) × ((now api world h).0 ≡ ok t)
        × ((process_command api world name params h).1
            ≡ send_query (encode (query t)) ∷ read_clock ∷ h)
  process_command_sends_at name params h query encode quiet made encodes done =
      elim (clock_cases h) [
        | inl (t, e) ↦ (
          t,
          ap (λ p. p.0) e,
          process_command_sends name params h (query t) quiet (made ∙ rw e) (encodes (query t)),
        )
        | inr e ↦ cc (sym done, process_command_panics name params h query made e)
      ]

  read_answer-eq-ok :
      (query : Query api) (name : String) (params : List String) (answer : api.Answer)
      (h : List Event) {r : Reply}
      → (read_answer api world query name params answer h).0 ≡ ok r
      → (api.as_control_query_error answer ≡ none)
        × ((command_receive api world name answer params h).0 ≡ ok r)
  unfolding read_answer
  read_answer-eq-ok query name params answer h done =
      elim (Option-cases (api.as_control_query_error answer)) [
        | inl accepted ↦ (accepted, map_err-eq-ok _ _ (rw (accepted, read_answer) at done))
        | inr (e, refused) ↦ cc (rw (refused, read_answer) at done)
      ]

  -- How a command came to its reply.
  abbrev pub Answered : String → List String → List Event → Reply → Type 0
  Answered name params h r =
      (query : Query api) × (bytes : Bytes) × (answer : api.Answer) × ((command_send api world name
          params h).0
        ≡ ok query)
      × (api.serialize_request query ≡ ok bytes)
      × (world.answer (command_send api world name params h).1 bytes ≡ ok answer)
      × (api.as_control_query_error answer ≡ none)
      × ((command_receive api world name answer params
            (send_query bytes ∷ (command_send api world name params h).1)).0
          ≡ ok r)

  -- A command that returns made a request of its parameters, got the node's answer to the bytes of
  -- that request, the answer is no error of the control server, and its `receive` gave the reply.
  pub process_command-eq-ok :
      (name : String) (params : List String) (h : List Event) {r : Reply}
      → (process_command api world name params h).0 ≡ ok r
      → Answered name params h r
  unfolding process_command
  process_command-eq-ok name params h done =
      let (query, made, r1) =
        >>=-eq-ok (command_send api world name params) _ h
          (λ i. (done i, (process_command api world name params h).1)) in
      let (bytes, serialized, r2) = >>=-eq-ok (lift (api.serialize_request query)) _ _ r1 in
      let (answer, got, r3) = >>=-eq-ok (map_err _ (ask api world bytes)) _ _ r2 in
      let (accepted, received) = read_answer-eq-ok query name params answer _ (ap (λ p. p.0) r3) in
      (query, bytes, answer, made, serialized, map_err-eq-ok _ _ got, accepted, received)

  read_answer-accepts :
      (query : Query api) (name : String) (params : List String) (answer : api.Answer)
      (h : List Event) {r : Reply}
      → api.as_control_query_error answer ≡ none
      → (command_receive api world name answer params h).0 ≡ ok r
      → (read_answer api world query name params answer h).0 ≡ ok r
  unfolding read_answer
  read_answer-accepts query name params answer h accepted received =
      rw (accepted, read_answer)
        (ap (map_outcome (λ e. "Wrong response to " <> (api.debug_request query <> (": " <> e))))
          received)

  -- A command returns exactly if a request can be made of its parameters and serialized, the node
  -- answers to the bytes of that request, the answer is no error of the control server, and its
  -- `receive` gives the reply.
  pub process_command_iff :
      (name : String) (params : List String) (h : List Event) (r : Reply)
      → ((process_command api world name params h).0 ≡ ok r) ↔ Answered name params h r
  unfolding process_command
  process_command_iff name params h r = (
    process_command-eq-ok name params h,
    λ (query, bytes, answer, made, serialized, got, accepted, received).
        rw (made, serialized, got)
          (read_answer-accepts query name params answer _ accepted received),
  )
