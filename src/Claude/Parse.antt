-- ===== src/Claude/Parse.antt =====
-- internal/agent/claude/parse.go: the handling of one event of the stream.
-- A line is decoded by the JSON package: a stream event holds its fields' values.
use my_symphony.Orchestrator.Env.{AgentEvent, Usage}
use my_symphony.Claude.Describe.{
  describe_message, extract_usage, extract_message_usage, extract_rate_limits,
}
use my_symphony.Go.Value.{Value, Fields, null}
use my_symphony.Go.Utf8.{Text, ascii, text_eq, is_blank}
use my_symphony.Go.Strings.{to_lower, has_prefix}
use my_symphony.Base.{
  ◌∷◌, ◌||◌, ◌++◌, ◌&&◌, ℕ, true, some, not, none, if◌then◌else◌, [], Option, List, Bool,
}

pub record StreamEvent : Type 0 where
  pub type : Text
  pub subtype : Text
  pub session_id : Text
  pub is_error : Option Bool
  pub usage : Value
  pub message : Value
  pub raw : Option Fields

-- What stays the same during a turn: its identifier, the process and json.Marshal.
pub record Turn : Type 0 where
  pub turn_id : Text
  pub pid : Option Text
  pub marshal : Value → Option Text

-- strings.Contains.
unfoldable pub contains : Text → Text → Bool
contains [] t = is_blank t
contains (b ∷ s) t = has_prefix (b ∷ s) t || contains s t

-- isErrorResult.
unfoldable pub is_error_result : StreamEvent → Bool
is_error_result evt =
    let st = to_lower evt.subtype in
    elim evt.is_error [
      | some true ↦ true
      | _ ↦ not (is_blank st) && not (text_eq st (ascii "success")) && contains st (ascii "error")
    ]

-- An event with its kind, its time and the identifiers of the turn.
unfoldable pub plain_event : Turn → Text → Text → ℕ → AgentEvent
plain_event t session_id kind now = record {
  event = kind;
  timestamp = now;
  agent_pid = t.pid;
  session_id = session_id;
  turn_id = t.turn_id;
  message = [];
  detail = [];
  usage = none;
  step_usage = none;
  rate_limits = null;
}

-- The session's identifier, whether its start was emitted, and what is emitted when an event names
-- the session.
unfoldable pub name_session : Turn → Text → ℕ → Bool → Text × Bool × List AgentEvent
name_session t session_id now started = (
  session_id,
  true,
  if started then [] else plain_event t session_id (ascii "session_started") now ∷ [],
)

-- `done` with a result, an error, or neither.
pub data Outcome : Type 0 where
  going_on : Outcome
  completed : Option Usage → Outcome
  result_error : Outcome

-- What handleEvent leaves: the session's identifier, whether its start was emitted, the events.
pub record Handled : Type 0 where
  pub session_id : Text
  pub started : Bool
  pub emitted : List AgentEvent
  pub outcome : Outcome

unfoldable pub other_message : Turn → Text → Bool → ℕ → Handled
other_message t session_id started now = record {
  session_id = session_id;
  started = started;
  emitted = plain_event t session_id (ascii "other_message") now ∷ [];
  outcome = going_on;
}

-- The case "system".
unfoldable pub handle_system : Turn → Text → Bool → ℕ → StreamEvent → Handled
handle_system t session_id started now evt =
    let (id, begun, evs) = name_session t evt.session_id now started in
    if text_eq evt.subtype (ascii "init") && not (is_blank evt.session_id)
    then record { session_id = id; started = begun; emitted = evs; outcome = going_on }
    else other_message t session_id started now

-- The case "assistant".
unfoldable pub handle_assistant : Turn → Text → Bool → ℕ → StreamEvent → Handled
handle_assistant t session_id started now evt =
    let (summary, detail) = describe_message t.marshal evt.message in
    record {
      session_id = session_id;
      started = started;
      emitted =
          record (plain_event t session_id (ascii "notification") now) {
            message = summary;
            detail = detail;
            step_usage = extract_message_usage evt.message;
            rate_limits = extract_rate_limits evt.raw;
          }
          ∷ [];
      outcome = going_on;
    }

-- The case "user".
unfoldable pub handle_user : Turn → Text → Bool → ℕ → StreamEvent → Handled
handle_user t session_id started now evt =
    let (summary, detail) = describe_message t.marshal evt.message in
    record {
      session_id = session_id;
      started = started;
      emitted =
          record (plain_event t session_id (ascii "other_message") now) {
            message = summary;
            detail = detail;
          }
          ∷ [];
      outcome = going_on;
    }

-- The last event of a result.
unfoldable pub result_event : Turn → Text → ℕ → StreamEvent → AgentEvent
result_event t session_id now evt =
    let kind =
      if is_error_result evt then ascii "turn_ended_with_error" else ascii "turn_completed" in
    record (plain_event t session_id kind now) {
      usage = extract_usage evt.usage;
      rate_limits = extract_rate_limits evt.raw;
      message = if is_error_result evt then ascii "result reported error" else [];
    }

-- The case "result", once the session is named.
unfoldable pub end_turn : Turn → Text × Bool × List AgentEvent → ℕ → StreamEvent → Handled
end_turn t (id, begun, evs) now evt = record {
  session_id = id;
  started = begun;
  emitted = evs ++ (result_event t id now evt ∷ []);
  outcome = if is_error_result evt then result_error else completed (extract_usage evt.usage);
}

unfoldable pub handle_result : Turn → Text → Bool → ℕ → StreamEvent → Handled
handle_result t session_id started now evt =
    if is_blank evt.session_id
    then end_turn t (session_id, started, []) now evt
    else end_turn t (name_session t evt.session_id now started) now evt

-- handleEvent.
unfoldable pub handle_event : Turn → Text → Bool → ℕ → StreamEvent → Handled
handle_event t session_id started now evt =
    if text_eq evt.type (ascii "system")
    then handle_system t session_id started now evt
    else if text_eq evt.type (ascii "assistant")
    then handle_assistant t session_id started now evt
    else if text_eq evt.type (ascii "user")
    then handle_user t session_id started now evt
    else if text_eq evt.type (ascii "result")
    then handle_result t session_id started now evt
    else other_message t session_id started now
