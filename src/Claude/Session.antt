-- ===== src/Claude/Session.antt =====
-- RunTurn of internal/agent/claude/client.go, and backend.go, over a session. The subprocess is what
-- it answers: its pipes and its start, its identifier, what the select of consume takes from it, and
-- the lines of its error stream.
use my_symphony.Go.Utf8.{Text, ascii}
use my_symphony.Claude.Turns.{
  Round, round, returns, continues, consume, turn_timeout, turn_cancelled, start_reading,
  response_timeout, event_line, TurnError, Reading, Choice,
}
use my_symphony.Claude.Tail.{read_from}
use my_symphony.Base.{
  ◌∷◌, ◌+◌, ◌*◌, ℕ, true, some, ok, none, if◌then◌else◌, false, err, [], Result, Option, List, Bool,
}
use my_symphony.Claude.Command.{build_command, Session, CliConfig}
use my_symphony.Go.Value.{Value}
use my_symphony.Claude.Parse.{handle_event, Turn}
use my_symphony.Orchestrator.Env.{Usage, AgentEvent}
use my_symphony.Go.Strconv.{itoa}

pub record Subprocess : Type 0 where
  pub stdin_pipe : Option Text
  pub stdout_pipe : Option Text
  pub stderr_pipe : Option Text
  pub start_error : Option Text
  pub pid : Text
  pub choices : List (ℕ × Choice)
  pub stderr_lines : List Text

-- What RunTurn fails with: a pipe, the start, or an error of consume with its diagnostics.
pub data RunTurnError : Type 0 where
  pipe_failed : (pipe : Text) (message : Text) → RunTurnError
  claude_not_found : (message : Text) → RunTurnError
  in_turn : TurnError → (diagnostics : Option Text) → RunTurnError

-- Whether an error of consume has a message of its own.
unfoldable pub has_message : TurnError → Bool
has_message turn_timeout = false
has_message turn_cancelled = false
has_message response_timeout = false
has_message _ = true

abbrev pub tail_limit : ℕ
tail_limit = 8 * 1024

-- The identifier that a round leaves in the session.
unfoldable pub id_after_round : Turn → Reading → ℕ → Choice → Text
id_after_round t s now (event_line evt) = (handle_event t s.session_id s.started now evt).session_id
id_after_round t s now _ = s.session_id

unfoldable pub id_after : Text → Round → (Reading → Text) → Text
id_after id (continues s) later = later s
id_after id (returns result) later = id

-- The identifier of the session once consume has returned, or as far as it has come.
unfoldable pub session_after : Turn → Reading → List (ℕ × Choice) → Text
unfolding id_after id_after_round
session_after t s [] = s.session_id
session_after t s ((now, choice) ∷ rest) =
    id_after (id_after_round t s now choice) (round t s now choice).1
      (λ s1. session_after t s1 rest)

-- The end of RunTurn: the tail of the error stream where the error has no message.
unfoldable pub end_run :
    Subprocess
    → Option (Result TurnError (Option Usage))
    → Option (Result RunTurnError (Option Usage))
unfolding read_from has_message
end_run p none = none
end_run p (some (ok usage)) = some (ok usage)
end_run p (some (err e)) = some (
    err (in_turn e (if has_message e then none else some (read_from tail_limit [] p.stderr_lines))))

-- RunTurn: the command that is run, if the start is reached, the session, what is emitted and the
-- result, which is missing while the choices run on.
pub record Ran : Type 0 where
  pub command : Option Text
  pub session : Session
  pub emitted : List AgentEvent
  pub result : Option (Result RunTurnError (Option Usage))

unfoldable pub fails : Option Text → Session → RunTurnError → Ran
fails command s e = record { command = command; session = s; emitted = []; result = some (err e) }

-- Once the subprocess has started.
unfoldable pub stream_turn : CliConfig → (Value → Option Text) → Session → Text → Subprocess → Ran
unfolding start_reading consume session_after end_run itoa
stream_turn cfg marshal s command p =
    let t : Turn = record { turn_id = itoa s.turn; pid = some p.pid; marshal = marshal } in
    let reading = start_reading cfg s.session_id in
    let consumed = consume t reading p.choices in
    record {
      command = some command;
      session = record s { session_id = session_after t reading p.choices };
      emitted = consumed.0;
      result = end_run p consumed.1;
    }

-- RunTurn.
unfoldable pub run_turn : CliConfig → (Value → Option Text) → Session → Subprocess → Ran
unfolding build_command fails stream_turn
run_turn cfg marshal session p =
    let s = record session { turn = session.turn + 1 } in
    let command = build_command cfg s.session_id in
    elim p.stdin_pipe [
      | some e ↦ fails none s (pipe_failed (ascii "stdin pipe") e)
      | none ↦ elim p.stdout_pipe [
        | some e ↦ fails none s (pipe_failed (ascii "stdout pipe") e)
        | none ↦ elim p.stderr_pipe [
          | some e ↦ fails none s (pipe_failed (ascii "stderr pipe") e)
          | none ↦ elim p.start_error [
            | some e ↦ fails (some command) s (claude_not_found e)
            | none ↦ stream_turn cfg marshal s command p
          ]
        ]
      ]
    ]
