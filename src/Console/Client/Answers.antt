-- ===== src/Console/Client/Answers.antt =====
-- `process_command` of bin/console.rs for a request that is known: which answers of the node make the
-- command succeed.
use ever_node_tools.Prelude.Int.{ℤ}
use ever_node_tools.Prelude.{
  String, ◌<>◌, ◌≡◌, ◌↔◌, ap, ◌∙◌, Option-cases, none, inl, inr, List, ◌∷◌,
}
use ever_node_tools.Outcome.{Outcome, ok, map_err-eq-ok}
use ever_node_tools.Io.{pure, map_err, ◌>>=◌, >>=-eq-ok}
use ever_node_tools.Console.Outside.{Api, World, Event, IsLawful, send_query, read_clock}
use ever_node_tools.Console.Send.{Query, now, command_send}
use ever_node_tools.Console.Receive.{Reply}
use ever_node_tools.Console.Client.{ask, command_receive, read_answer, process_command}

abbrev pub sent : {api : Api} → IsLawful api → Query api → Event
sent laws query = send_query (laws.encode query)

module _ (api : Api) (world : World api.Answer) (laws : IsLawful api) where
  -- The node answers to the request, with no error of the control server, but with what `P` says.
  abbrev pub Accepts : List Event → Query api → (api.Answer → Type 0) → Type 0
  Accepts h query P =
      (answer : api.Answer) × (world.answer h (laws.encode query) ≡ ok answer)
      × (api.as_control_query_error answer ≡ none)
      × P answer

  pub weaken_answer :
      {h : List Event} {query : Query api} {P Q : api.Answer → Type 0}
      → ((answer : api.Answer) → P answer → Q answer)
      → Accepts h query P
      → Accepts h query Q
  weaken_answer imply (answer, got, accepted, says) = (answer, got, accepted, imply answer says)

  module _ (name : String) (params : List String) (h : List Event) (query : Query api)
      {h' : List Event} (made : command_send api world name params h ≡ (ok query, h'))
      (reply : Reply) (left : List Event) where
    abbrev Reads : api.Answer → Type 0
    Reads answer =
        command_receive api world name answer params (sent laws query ∷ h') ≡ (ok reply, left)

    read_answer-eq-ok :
        (answer : api.Answer)
        → read_answer api world query name params answer (sent laws query ∷ h') ≡ (ok reply, left)
        → (api.as_control_query_error answer ≡ none) × Reads answer
    unfolding read_answer
    read_answer-eq-ok answer done = elim (Option-cases (api.as_control_query_error answer)) [
      | inl accepted ↦
          let later = rw (accepted, read_answer) at done in
          (accepted, λ i. (map_err-eq-ok _ _ (ap (λ p. p.0) later) i, (later i).1))
      | inr (e, refused) ↦ cc (ap (λ p. p.0) (rw (refused, read_answer) at done))
    ]

    read_answer_gives :
        (answer : api.Answer)
        → api.as_control_query_error answer ≡ none
        → Reads answer
        → read_answer api world query name params answer (sent laws query ∷ h') ≡ (ok reply, left)
    unfolding read_answer
    read_answer_gives answer accepted reads = rw (accepted, read_answer, reads)

    -- A command with this request gives a reply exactly if the node accepts the request with an answer
    -- from which the command reads the reply.
    pub process_command_answers :
        (process_command api world name params h ≡ (ok reply, left)) ↔ Accepts h' query Reads
    unfolding process_command
    process_command_answers = (
      λ done.
          let (answer, got, later) =
            >>=-eq-ok
              (map_err (λ e. "Error receiving answer: " <> e) (ask api world (laws.encode query)))
              (read_answer api world query name params) h'
              (rw (made, laws.encodes query) at done) in
          let (accepted, reads) = read_answer-eq-ok answer later in
          (answer, map_err-eq-ok _ _ got, accepted, reads),
      λ (answer, got, accepted, reads).
          rw (made, laws.encodes query, got) (read_answer_gives answer accepted reads),
    )

  -- The request of a command that reads the clock.
  pub made_at :
      (name : String) (params : List String) (h : List Event) (query : ℤ → Query api) {t : ℤ}
      → command_send api world name params h ≡ (now api world >>= λ t. pure (query t)) h
      → (now api world h).0 ≡ ok t
      → command_send api world name params h ≡ (ok (query t), read_clock ∷ h)
  unfolding now
  made_at name params h query made at = made ∙ rw at

  -- A command that reads its answer with no effect.
  module _ (name : String) (params : List String) (h : List Event) (query : Query api)
      {h' : List Event} (made : command_send api world name params h ≡ (ok query, h'))
      (read : api.Answer → Outcome Reply)
      (reads : (answer : api.Answer) (g : List Event)
        → command_receive api world name answer params g ≡ (read answer, g)) where
    pub answered :
        {reply : Reply}
        → (process_command api world name params h).0 ≡ ok reply
        → Accepts h' query (λ answer. read answer ≡ ok reply)
    answered {reply} done =
        let (answer, got, accepted, later) =
          (process_command_answers name params h query made reply _).0
            (λ i. (done i, (process_command api world name params h).1)) in
        (answer, got, accepted, ap (λ p. p.0) (rw (reads answer (sent laws query ∷ h')) at later))

    pub runs :
        {reply : Reply}
        → Accepts h' query (λ answer. read answer ≡ ok reply)
        → process_command api world name params h ≡ (ok reply, sent laws query ∷ h')
    runs {reply} (answer, got, accepted, gives) =
        (process_command_answers name params h query made reply _).1
          (answer, got, accepted, reads answer _ ∙ λ i. (gives i, sent laws query ∷ h'))
