-- ===== src/Witnesses.antt =====
-- The theorems at concrete inputs: two issues, one slot, a tracker that answers.
mod Scheduling
mod Workers
mod Files
mod Turns
mod Tracker
mod Prompts
mod Programs
mod Observers
mod Configured
use my_symphony.Base.{◌∷◌, ◌++◌, ℤ, true, some, pos, ok, none, false, [], List, ℕ}
use my_symphony.Orchestrator.Dispatch.{new_session}
use my_symphony.Orchestrator.Env.{
  worker_exit, tick_event, retry_timer_fired, exit_abnormal, Event, Env, AgentEvent,
}
use my_symphony.Orchestrator.State.{no_totals, RunningEntry, Orchestrator}
use my_symphony.Config.{HooksConfig, Config}
use my_symphony.Orchestrator.Update.Activity.{total_tokens}
use my_symphony.Domain.{Issue}
use my_symphony.Go.Utf8.{ascii, Text}
use my_symphony.Go.Value.{null}

abbrev pub no_hooks : HooksConfig
no_hooks = record {
  after_create = [];
  before_run = [];
  after_run = [];
  before_remove = [];
  timeout_ms = pos 60_000;
}

-- One worker at a time, and at most one in "Todo".
abbrev pub small_config : Config
small_config = record {
  tracker = record {
    kind = ascii "linear";
    endpoint = ascii "https://api.linear.app/graphql";
    api_key = ascii "key";
    project_slug = ascii "slug";
    required_labels = [];
    active_states = ascii "Todo" ∷ ascii "In Progress" ∷ [];
    terminal_states = ascii "Done" ∷ [];
    assignee = [];
  };
  polling = record { interval_ms = pos 30_000 };
  workspace = record { root = ascii "/w" };
  hooks = no_hooks;
  agent = record {
    max_concurrent = pos 1;
    max_turns = pos 20;
    max_retry_backoff_ms = pos 300_000;
    max_concurrent_by_state = (ascii "todo", pos 1) ∷ [];
  };
  claude = record {
    command = ascii "claude";
    model = [];
    reasoning_effort = [];
    resume_across_turns = true;
    turn_timeout_ms = pos 3_600_000;
    read_timeout_ms = pos 5_000;
    stall_timeout_ms = pos 300_000;
  };
  server = record { port = pos 0; port_set = false };
  states = [];
}

abbrev pub issue_of : Text → Text → ℤ → Issue
issue_of id state priority = record {
  id = id;
  identifier = ascii "AB-" ++ id;
  title = ascii "title";
  description = none;
  priority = some priority;
  state = state;
  branch_name = none;
  url = none;
  labels = [];
  blocked_by = [];
  created_at = none;
  updated_at = none;
  assignee = none;
}

abbrev pub issue_a : Issue
issue_a = issue_of (ascii "a") (ascii "Todo") (pos 2)

abbrev pub issue_b : Issue
issue_b = issue_of (ascii "b") (ascii "In Progress") (pos 1)

-- The tracker lists `listed` as candidates and answers `refreshed` on a refresh.
abbrev pub env_at : ℕ → List Issue → List Issue → Env
env_at now listed refreshed = record {
  now = now;
  fetch_candidate_issues = ok listed;
  fetch_issue_states_by_ids = λ ids. ok refreshed;
  fetch_issues_by_states = λ states. ok [];
  cleanup = λ identifier. none;
  path_for = λ identifier. ascii "/w/" ++ identifier;
  new_tracker = λ cfg. none;
}

abbrev pub first_env : Env
first_env = env_at 1_000 (issue_a ∷ issue_b ∷ []) []

abbrev pub idle_orchestrator : Orchestrator
idle_orchestrator = record {
  cfg = small_config;
  template = [];
  state = record {
    poll_interval_ms = pos 30_000;
    max_concurrent_agents = pos 1;
    running = [];
    claimed = [];
    retry_attempts = [];
    completed = [];
    claude_totals = no_totals;
    claude_rate_limits = null;
  };
  tick_timer = none;
  has_notifier = false;
  effects = [];
}

abbrev pub entry_a : RunningEntry
entry_a = record {
  identifier = ascii "AB-a";
  issue = issue_a;
  started_at = 1_000;
  session = new_session;
  retry_attempt = pos 2;
  workspace_path = ascii "/w/AB-a";
  terminating = false;
  cleanup_on_exit = false;
  release_on_exit = false;
}

-- Issue "a" runs, in its third attempt.
abbrev pub busy_orchestrator : Orchestrator
busy_orchestrator = record idle_orchestrator {
  state = record (idle_orchestrator.state) {
    running = (ascii "a", entry_a) ∷ [];
    claimed = (ascii "a", tt) ∷ [];
  };
}

-- A tick, the failure of the worker that it started, the retry, and another tick.
abbrev pub history : List (Env × Event)
history =
    (first_env, tick_event)
    ∷ (first_env, worker_exit (ascii "b") exit_abnormal none)
    ∷ (first_env, retry_timer_fired (ascii "b"))
    ∷ (first_env, tick_event)
    ∷ []

abbrev pub message_of : Text → AgentEvent
message_of text = record {
  event = ascii "notification";
  timestamp = 2_000;
  agent_pid = none;
  session_id = ascii "s1";
  turn_id = ascii "1";
  message = text;
  detail = [];
  usage = some (record { input_tokens = pos 3; output_tokens = pos 4; total_tokens = pos 7 });
  step_usage = none;
  rate_limits = null;
}
