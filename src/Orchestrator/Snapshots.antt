-- ===== src/Orchestrator/Snapshots.antt =====
-- internal/orchestrator/snapshot.go, and `notify` of orchestrator.go.
-- Entries with one identifier have no fixed order in the code; here they keep the map's.
pub mod Rows
use my_symphony.Base.{ℕ, ◌+◌, ◌-◌, if◌then◌else◌, List, [], ◌∷◌, Option, none, some, length}
use my_symphony.Go.Utf8.{Text, text_lt}
use my_symphony.Go.Maps.{Map}
use my_symphony.Go.Sort.{slice_stable}
use my_symphony.Domain.{RetryEntry}
use my_symphony.Domain.Snapshot.{Snapshot, RunningRow, RetryRow}
use my_symphony.Orchestrator.State.{Orchestrator, RunningEntry, effect, notifies}
use my_symphony.Orchestrator.Env.{Env}

or_empty : Option Text → Text
or_empty none = []
or_empty (some t) = t

-- The row of one running entry.
unfoldable pub running_row : Text → RunningEntry → RunningRow
unfolding or_empty
running_row id e = record {
  issue_id = id;
  issue_identifier = e.identifier;
  issue_url = e.issue.url;
  state = e.issue.state;
  session_id = e.session.session_id;
  turn_count = e.session.turn_count;
  last_event = or_empty e.session.last_agent_event;
  last_message = e.session.last_agent_message;
  started_at = e.started_at;
  last_event_at = e.session.last_agent_timestamp;
  tokens = record {
    input_tokens = e.session.claude_input_tokens;
    output_tokens = e.session.claude_output_tokens;
    total_tokens = e.session.claude_total_tokens;
  };
  activity = e.session.recent_activity;
  workspace_path = e.workspace_path;
  retry_attempt = e.retry_attempt;
}

unfoldable pub running_rows : Map RunningEntry → List RunningRow
running_rows [] = []
running_rows ((id, e) ∷ rest) = running_row id e ∷ running_rows rest

unfoldable pub retry_row : Text → RetryEntry → RetryRow
retry_row id r = record {
  issue_id = id;
  issue_identifier = r.identifier;
  issue_url = r.url;
  attempt = r.attempt;
  due_at_ms = r.due_at_ms;
  error = r.error;
}

unfoldable pub retry_rows : Map RetryEntry → List RetryRow
retry_rows [] = []
retry_rows ((id, r) ∷ rest) = retry_row id r ∷ retry_rows rest

-- The time that the live sessions have run, in nanoseconds. The clock is monotonic.
unfoldable pub live_time : ℕ → Map RunningEntry → ℕ
live_time now [] = 0
live_time now ((id, e) ∷ rest) = (now - e.started_at) + live_time now rest

-- buildSnapshot.
unfoldable pub build_snapshot : Env → Orchestrator → Snapshot
build_snapshot env o =
    let running =
      slice_stable (λ a b. text_lt a.issue_identifier b.issue_identifier)
        (running_rows o.running) in
    let retrying =
      slice_stable (λ a b. text_lt a.issue_identifier b.issue_identifier)
        (retry_rows o.retry_attempts) in
    record {
      generated_at = env.now;
      counts = record { running = length running; retrying = length retrying };
      running = running;
      retrying = retrying;
      claude_totals = record (o.claude_totals) {
        seconds_running = o.claude_totals.seconds_running + live_time env.now o.running;
      };
      rate_limits = o.claude_rate_limits;
    }

-- notify.
unfoldable pub notify : Env → Orchestrator → Orchestrator
unfolding effect
notify env o = if o.has_notifier then effect (notifies (build_snapshot env o)) o else o
