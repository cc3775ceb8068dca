-- ===== src/Claude/Turns.antt =====
-- consume of internal/agent/claude/client.go: the loop over the lines of a turn.
-- What the `select` takes, round after round, is a list of choices, each with the time; the
-- subprocess and the timers that feed it are outside.
use my_symphony.Orchestrator.Env.{AgentEvent, Usage}
use my_symphony.Claude.Command.{CliConfig}
use my_symphony.Claude.Parse.{
  Turn, StreamEvent, Outcome, going_on, completed, result_error, plain_event, handle_event,
}
use my_symphony.Go.Utf8.{Text, ascii}
use my_symphony.Go.Int64.{mul64}
use my_symphony.Base.{
  ◌∷◌, ◌+◌, ◌++◌, ◌&&◌, ℕ, true, some, pos, ok, not, none, ltb_ℤ, leb, if◌then◌else◌, false, err,
  [], Result, Option, List, Bool,
}

-- A line that is empty, that does not parse, or that is an event; a read error; the end.
pub data Choice : Type 0 where
  deadline_passed : Choice
  context_cancelled : Choice
  read_timer_fired : Choice
  stream_ended : Choice
  read_error : Text → Choice
  empty_line : Choice
  malformed_line : Choice
  event_line : StreamEvent → Choice

pub data TurnError : Type 0 where
  turn_timeout : TurnError
  turn_cancelled : TurnError
  response_timeout : TurnError
  turn_failed : TurnError
  stdout_error : Text → TurnError
  stream_corruption : ℕ → TurnError
  response_error : TurnError

-- The variables of the loop, with the session's identifier; `waiting` is a readCh that is not nil.
pub record Reading : Type 0 where
  pub session_id : Text
  pub malformed : ℕ
  pub saw_event : Bool
  pub started : Bool
  pub waiting : Bool

abbrev pub malformed_line_limit : ℕ
malformed_line_limit = 10

-- Before the first round.
unfoldable pub start_reading : CliConfig → Text → Reading
start_reading cfg session_id = record {
  session_id = session_id;
  malformed = 0;
  saw_event = false;
  started = false;
  waiting = ltb_ℤ (pos 0) (mul64 cfg.read_timeout_ms (pos 1_000_000));
}

-- A round emits events, and goes on or returns.
pub data Round : Type 0 where
  continues : Reading → Round
  returns : Result TurnError (Option Usage) → Round

-- An event with a message.
unfoldable pub message_event : Turn → Reading → Text → Text → ℕ → AgentEvent
message_event t s kind message now = record (plain_event t s.session_id kind now) {
  message = message;
}

-- What follows the handling of an event.
unfoldable pub after_outcome : Text → Bool → Outcome → Round
after_outcome session_id started going_on = continues record {
  session_id = session_id;
  malformed = 0;
  saw_event = true;
  started = started;
  waiting = false;
}
after_outcome session_id started (completed usage) = returns (ok usage)
after_outcome session_id started result_error = returns (err response_error)

-- The body of the `for` loop.
unfoldable pub round : Turn → Reading → ℕ → Choice → List AgentEvent × Round
round t s now deadline_passed = (
  message_event t s (ascii "turn_failed") (ascii "turn timeout") now ∷ [],
  returns (err turn_timeout),
)
round t s now context_cancelled =
    (message_event t s (ascii "turn_cancelled") [] now ∷ [], returns (err turn_cancelled))
round t s now read_timer_fired =
    if s.waiting && not s.saw_event
    then (
      message_event t s (ascii "startup_failed") (ascii "response timeout") now ∷ [],
      returns (err response_timeout),
    )
    else ([], continues s)
round t s now stream_ended = (
  message_event t s (ascii "turn_failed") (ascii "stream ended before result") now ∷ [],
  returns (err turn_failed),
)
round t s now (read_error e) = (
  message_event t s (ascii "turn_failed") (ascii "stdout read error") now ∷ [],
  returns (err (stdout_error e)),
)
round t s now empty_line = ([], continues s)
round t s now malformed_line =
    let malformed = s.malformed + 1 in
    (
      message_event t s (ascii "malformed") (ascii "malformed line") now ∷ [],
      if leb malformed_line_limit malformed
          then returns (err (stream_corruption malformed))
          else continues (record s { malformed = malformed }),
    )
round t s now (event_line evt) =
    let handled = handle_event t s.session_id s.started now evt in
    (handled.emitted, after_outcome handled.session_id handled.started handled.outcome)

abbrev pub Consumed : Type 0
Consumed = List AgentEvent × Option (Result TurnError (Option Usage))

-- The events of a round before those of the rounds after it, if there are any.
unfoldable pub resume : List AgentEvent → Round → (Reading → Consumed) → Consumed
resume emitted (returns result) later = (emitted, some result)
resume emitted (continues s) later = (emitted ++ (later s).0, (later s).1)

-- consume: the events that are emitted, and the result, unless the choices run out before it.
unfoldable pub consume : Turn → Reading → List (ℕ × Choice) → Consumed
consume t s [] = ([], none)
consume t s ((now, choice) ∷ rest) =
    let (emitted, next) = round t s now choice in resume emitted next (λ s1. consume t s1 rest)
