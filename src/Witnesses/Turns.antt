-- ===== src/Witnesses/Turns.antt =====
-- The theorems on the agent's CLI at concrete inputs.
use my_symphony.Claude.Command.{start_session, Session, CliConfig, shell_single_quote}
use my_symphony.Claude.Quoting.{read_shell, bare, shell_single_quote-read}
use my_symphony.Claude.Parse.{
  name_session, is_error_result, handle_system, handle_result, handle_event, end_turn, StreamEvent,
}
use my_symphony.Claude.Turns.{
  resume, round, message_event, after_outcome, Choice, event_line, malformed_line, stream_ended,
  start_reading, consume,
}
use my_symphony.Go.Value.{null, float, object, end, field}
use my_symphony.Go.Utf8.{text_eq, is_blank, Text, ascii}
use my_symphony.Base.{refl, ok, ◌≡◌, ◌∷◌, ℕ, true, some, pos, none, [], List}
use my_symphony.Claude.Session.{
  run_turn, stream_turn, session_after, id_after_round, id_after, end_run, Subprocess,
}
use my_symphony.Claude.Resumed.{Completes, run_turn-Completes}
use my_symphony.Claude.Describe.{usage_from_map, extract_usage}
use my_symphony.Orchestrator.Env.{Usage}
use my_symphony.Go.Strings.{to_lower}
use my_symphony.Go.Strconv.{itoa}

shell_single_quote-read_example :
    read_shell bare (shell_single_quote (ascii "a'; rm -r ~")) ≡ some (ascii "a'; rm -r ~")
shell_single_quote-read_example = shell_single_quote-read (ascii "a'; rm -r ~")

stream_event : Text → Text → StreamEvent
stream_event type subtype = record {
  type = type;
  subtype = subtype;
  session_id = ascii "s1";
  is_error = none;
  usage = object (field (ascii "output_tokens") (float (pos 7) 0) end);
  message = null;
  raw = none;
}

cli : CliConfig
cli = record {
  command = ascii "claude";
  model = [];
  reasoning_effort = [];
  resume_across_turns = true;
  turn_timeout_ms = pos 60_000;
  read_timeout_ms = pos 5_000;
}

stream : List (ℕ × Choice)
stream =
    (1, event_line (stream_event (ascii "system") (ascii "init")))
    ∷ (2, malformed_line)
    ∷ (3, event_line (stream_event (ascii "result") (ascii "success")))
    ∷ (4, stream_ended)
    ∷ []

lines : List Text
lines = ascii "warn" ∷ [] ∷ ascii "exit 1" ∷ []

new_session : Session
new_session = start_session (ascii "/w/AB-1") (ascii "AB-1") (ascii "One")

process : Subprocess
process = record {
  stdin_pipe = none;
  stdout_pipe = none;
  stderr_pipe = none;
  start_error = none;
  pid = ascii "42";
  choices = stream;
  stderr_lines = lines;
}

turn_tools : Unit {0}
unfolding run_turn stream_turn session_after id_after id_after_round start_reading consume round
    resume after_outcome handle_event handle_system handle_result end_turn name_session
    extract_usage is_error_result end_run text_eq is_blank new_session process stream stream_event
    cli start_session usage_from_map message_event
turn_tools = tt

counted : Usage
unfolding usage_from_map
counted = usage_from_map (field (ascii "output_tokens") (float (pos 7) 0) end)

succeeded : (run_turn cli (λ v. none) new_session process).result ≡ some (ok (some counted))
unfolding turn_tools counted to_lower
succeeded = refl

run_turn-Completes_example :
    let ran = run_turn cli (λ v. none) new_session process in
    Completes (itoa 1) ran.session.session_id (some counted) ran.emitted
unfolding new_session start_session
run_turn-Completes_example =
    run_turn-Completes cli (λ v. none) new_session process (some counted) succeeded
