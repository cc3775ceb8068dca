-- ===== src/Claude/Resumed.antt =====
-- What a turn that succeeds reports: RunTurn of internal/agent/claude/client.go.
use my_symphony.Base.{
  subst, ◌≡◌, ◌∷◌, ◌∙◌, ◌+◌, ◌++◌, ◌&&◌, ℕ, some, refl, ok, not, none, leb, inr, inl, if◌then◌else◌,
  if_elim, false, err, append_assoc, ap, [], Result, Option-cases, Option, List, Bool,
}
use my_symphony.Claude.Turns.{
  start_reading, returns, consume, round, continues, resume, stream_ended, read_timer_fired,
  read_error, message_event, malformed_line_limit, malformed_line, event_line, empty_line,
  deadline_passed, context_cancelled, after_outcome, TurnError, Round, Reading, Consumed, Choice,
}
use my_symphony.Claude.Parse.{
  completed, result_event, result_error, plain_event, other_message, name_session, is_error_result,
  handle_user, handle_system, handle_result, handle_event, handle_assistant, going_on, end_turn,
  Turn, StreamEvent, Outcome, Handled,
}
use my_symphony.Claude.Session.{
  run_turn, fails, stream_turn, session_after, id_after_round, id_after, end_run, Subprocess,
}
use my_symphony.Orchestrator.Env.{Usage, AgentEvent}
use my_symphony.Go.Utf8.{ascii, text_eq, is_blank, Text}
use my_symphony.Claude.Command.{Session, CliConfig}
use my_symphony.Go.Value.{Value}
use my_symphony.Claude.Describe.{extract_usage}
use my_symphony.Go.Strconv.{itoa}

-- What the last event of a turn that succeeds tells: its kind, the session, the turn and the usage.
abbrev pub Completes : Text → Text → Option Usage → List AgentEvent → Type 0
Completes turn_id id usage emitted =
    (before : List AgentEvent) × (last : AgentEvent) × (emitted ≡ before ++ (last ∷ []))
    × (last.event ≡ ascii "turn_completed")
    × (last.session_id ≡ id)
    × (last.turn_id ≡ turn_id)
    × (last.usage ≡ usage)

Completes-append :
    (turn_id id : Text) (usage : Option Usage) (xs ys : List AgentEvent)
    → Completes turn_id id usage ys
    → Completes turn_id id usage (xs ++ ys)
Completes-append turn_id id usage xs ys
      (before, last, is_end, kind, id_told, turn_told, usage_told) =
    (
      xs ++ before,
      last,
      ap (λ l. xs ++ l) is_end ∙ append_assoc xs before (last ∷ []),
      kind,
      id_told,
      turn_told,
      usage_told,
    )

-- What holds of a result beside its events: those of a success complete the turn.
abbrev Reports {ℓ} :
    {E : Type ℓ} → Text → Text → List AgentEvent → Option (Result E (Option Usage)) → Type 0
Reports turn_id id emitted none = Unit {0}
Reports turn_id id emitted (some (err e)) = Unit {0}
Reports turn_id id emitted (some (ok usage)) = Completes turn_id id usage emitted

Reports-append :
    (turn_id id : Text) (xs ys : List AgentEvent) (r : Option (Result TurnError (Option Usage)))
    → Reports turn_id id ys r
    → Reports turn_id id (xs ++ ys) r
Reports-append turn_id id xs ys none c = c
Reports-append turn_id id xs ys (some (err e)) c = c
Reports-append turn_id id xs ys (some (ok usage)) c = Completes-append turn_id id usage xs ys c

-- The same of an outcome and of a round.
abbrev Says : Text → Text → List AgentEvent → Outcome → Type 0
Says turn_id id emitted going_on = Unit {0}
Says turn_id id emitted result_error = Unit {0}
Says turn_id id emitted (completed usage) = Completes turn_id id usage emitted

abbrev Tells : Text → Text → List AgentEvent → Round → Type 0
Tells turn_id id emitted (continues s) = Unit {0}
Tells turn_id id emitted (returns result) = Reports turn_id id emitted (some result)

module _ (t : Turn) (now : ℕ) (evt : StreamEvent) where
  -- An event that is handled says what its outcome asks for.
  abbrev SaysAll : Handled → Type 0
  SaysAll h = Says t.turn_id h.session_id h.emitted h.outcome

  result_event-kind :
      (id : Text)
      → is_error_result evt ≡ false
      → (result_event t id now evt).event ≡ ascii "turn_completed"
  unfolding result_event plain_event
  result_event-kind id no_error =
      ap (λ b. if b then ascii "turn_ended_with_error" else ascii "turn_completed") no_error

  result_event-tells :
      (id : Text)
      → let e = result_event t id now evt in
        (e.session_id ≡ id) × (e.turn_id ≡ t.turn_id) × (e.usage ≡ extract_usage evt.usage)
  unfolding result_event plain_event
  result_event-tells id = (refl, refl, refl)

  end_turn-Says : (known : Text × Bool × List AgentEvent) → SaysAll (end_turn t known now evt)
  unfolding end_turn
  end_turn-Says (id, shown, evs) =
      let last = result_event t id now evt in
      if_elim (Says t.turn_id id (evs ++ (last ∷ []))) (is_error_result evt) (λ _. tt)
        (λ no_error.
          let (id_told, turn_told, usage_told) = result_event-tells id in
          (evs, last, refl, result_event-kind id no_error, id_told, turn_told, usage_told))

  handle_event-Says : (id : Text) (shown : Bool) → SaysAll (handle_event t id shown now evt)
  unfolding handle_event handle_system handle_assistant handle_user handle_result other_message
  handle_event-Says id shown =
      if_elim SaysAll (text_eq evt.type (ascii "system"))
        (λ _.
          if_elim SaysAll (text_eq evt.subtype (ascii "init") && not (is_blank evt.session_id))
            (λ _. tt) (λ _. tt))
        λ _.
          if_elim SaysAll (text_eq evt.type (ascii "assistant")) (λ _. tt)
            λ _.
              if_elim SaysAll (text_eq evt.type (ascii "user")) (λ _. tt)
                λ _.
                  if_elim SaysAll (text_eq evt.type (ascii "result"))
                    (λ _.
                      if_elim SaysAll (is_blank evt.session_id) (λ _. end_turn-Says (id, shown, []))
                        (λ _. end_turn-Says (name_session t evt.session_id now shown)))
                    (λ _. tt)

after_outcome-Tells :
    (turn_id id : Text) (emitted : List AgentEvent) (shown : Bool) (o : Outcome)
    → Says turn_id id emitted o
    → Tells turn_id id emitted (after_outcome id shown o)
unfolding after_outcome
after_outcome-Tells turn_id id emitted shown going_on c = tt
after_outcome-Tells turn_id id emitted shown (completed u) c = c
after_outcome-Tells turn_id id emitted shown result_error c = tt

resume-Reports :
    (turn_id id : Text) (emitted : List AgentEvent) (next : Round) (later : Reading → Consumed)
    (known : Reading → Text)
    → Tells turn_id id emitted next
    → ((s : Reading) → Reports turn_id (known s) (later s).0 (later s).1)
    → let out = resume emitted next later in Reports turn_id (id_after id next known) out.0 out.1
unfolding resume id_after
resume-Reports turn_id id emitted (continues s) later known c reports =
    Reports-append turn_id (known s) emitted (later s).0 (later s).1 (reports s)
resume-Reports turn_id id emitted (returns result) later known c reports = c

module _ (t : Turn) where
  round-Tells :
      (s : Reading) (now : ℕ) (choice : Choice)
      → Tells t.turn_id
          (id_after_round t s now choice)
          (round t s now choice).0
          (round t s now choice).1
  unfolding round id_after_round
  round-Tells s now deadline_passed = tt
  round-Tells s now context_cancelled = tt
  round-Tells s now read_timer_fired =
      if_elim (λ (r : List AgentEvent × Round). Tells t.turn_id s.session_id r.0 r.1)
        (s.waiting && not s.saw_event) (λ _. tt) (λ _. tt)
  round-Tells s now stream_ended = tt
  round-Tells s now (read_error e) = tt
  round-Tells s now empty_line = tt
  round-Tells s now malformed_line =
      if_elim
        (Tells t.turn_id s.session_id
          (message_event t s (ascii "malformed") (ascii "malformed line") now ∷ []))
        (leb malformed_line_limit (s.malformed + 1)) (λ _. tt) (λ _. tt)
  round-Tells s now (event_line evt) =
      let h = handle_event t s.session_id s.started now evt in
      after_outcome-Tells t.turn_id h.session_id h.emitted h.started h.outcome
        (handle_event-Says t now evt s.session_id s.started)

  consume-Reports :
      (s : Reading) (choices : List (ℕ × Choice))
      → let out = consume t s choices in Reports t.turn_id (session_after t s choices) out.0 out.1
  unfolding consume session_after
  consume-Reports s [] = tt
  consume-Reports s ((now, choice) ∷ rest) =
      resume-Reports t.turn_id (id_after_round t s now choice) (round t s now choice).0
        (round t s now choice).1 (λ s1. consume t s1 rest) (λ s1. session_after t s1 rest)
        (round-Tells s now choice) (λ s1. consume-Reports s1 rest)

end_run-Reports :
    (turn_id id : Text) (emitted : List AgentEvent) (p : Subprocess)
    (r : Option (Result TurnError (Option Usage)))
    → Reports turn_id id emitted r
    → Reports turn_id id emitted (end_run p r)
unfolding end_run
end_run-Reports turn_id id emitted p none c = tt
end_run-Reports turn_id id emitted p (some (ok usage)) c = c
end_run-Reports turn_id id emitted p (some (err e)) c = tt

module _ (cfg : CliConfig) (marshal : Value → Option Text) (session : Session)
    (p : Subprocess) where
  run_turn-Reports :
      let ran = run_turn cfg marshal session p in
      Reports (itoa (session.turn + 1)) ran.session.session_id ran.emitted ran.result
  unfolding run_turn fails stream_turn
  run_turn-Reports = elim (Option-cases p.stdin_pipe) [
    | inr (e, failed) ↦ rw failed tt
    | inl opened ↦ rw opened (elim (Option-cases p.stdout_pipe) [
      | inr (e, failed) ↦ rw failed tt
      | inl opened ↦ rw opened (elim (Option-cases p.stderr_pipe) [
        | inr (e, failed) ↦ rw failed tt
        | inl opened ↦ rw opened (elim (Option-cases p.start_error) [
          | inr (e, failed) ↦ rw failed tt
          | inl launched ↦ rw launched (
              let t : Turn = record {
                turn_id = itoa (session.turn + 1);
                pid = some p.pid;
                marshal = marshal;
              } in
              let reading = start_reading cfg session.session_id in
              let out = consume t reading p.choices in
              end_run-Reports t.turn_id (session_after t reading p.choices) out.0 p out.1
                (consume-Reports t reading p.choices))
        ])
      ])
    ])
  ]

  -- A turn that succeeds ends with the report of its success: its last event is turn_completed, with
  -- the usage that RunTurn returns, the number of the turn, and the identifier that the session has
  -- from then on.
  pub run_turn-Completes :
      (usage : Option Usage)
      → (run_turn cfg marshal session p).result ≡ some (ok usage)
      → let ran = run_turn cfg marshal session p in
        Completes (itoa (session.turn + 1)) ran.session.session_id usage ran.emitted
  run_turn-Completes usage succeeded =
      let ran = run_turn cfg marshal session p in
      subst (Reports (itoa (session.turn + 1)) ran.session.session_id ran.emitted) succeeded
        run_turn-Reports
