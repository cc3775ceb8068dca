-- ===== src/Orchestrator/State.antt =====
-- internal/orchestrator/state.go, and the Orchestrator of orchestrator.go.
-- `cancel` of a running entry is an effect on its worker; log lines are left out.
use my_symphony.Base.{
  ℕ, ◌+◌, Bool, List, [], ◌∷◌, Option, none, some, ℤ, pos, ltb_ℤ, if◌then◌else◌, length,
}
use my_symphony.Go.Int64.{sub64}
use my_symphony.Go.Utf8.{Text, text_eq}
use my_symphony.Go.Value.{Value, null}
use my_symphony.Go.Maps.{Map}
use my_symphony.Domain.{Issue, LiveSession, RetryEntry, Totals, normalize_state}
use my_symphony.Domain.Snapshot.{Snapshot}
use my_symphony.Config.{Config}

pub record RunningEntry : Type 0 where
  pub identifier : Text
  pub issue : Issue
  pub started_at : ℕ
  pub session : LiveSession
  pub retry_attempt : ℤ
  pub workspace_path : Text
  pub terminating : Bool
  pub cleanup_on_exit : Bool
  pub release_on_exit : Bool

-- lastActivity.
unfoldable pub last_activity : RunningEntry → ℕ
last_activity e = elim e.session.last_agent_timestamp [ none ↦ e.started_at | some t ↦ t ]

pub record RuntimeState : Type 0 where
  pub poll_interval_ms : ℤ
  pub max_concurrent_agents : ℤ
  pub running : Map RunningEntry
  pub claimed : Map (Unit {0})
  pub retry_attempts : Map RetryEntry
  pub completed : Map (Unit {0})
  pub claude_totals : Totals
  pub claude_rate_limits : Value

abbrev pub no_totals : Totals
no_totals = record {
  input_tokens = pos 0;
  output_tokens = pos 0;
  total_tokens = pos 0;
  seconds_running = 0;
}

-- newRuntimeState.
unfoldable pub new_runtime_state : ℤ → ℤ → RuntimeState
new_runtime_state poll_interval_ms max_concurrent = record {
  poll_interval_ms = poll_interval_ms;
  max_concurrent_agents = max_concurrent;
  running = [];
  claimed = [];
  retry_attempts = [];
  completed = [];
  claude_totals = no_totals;
  claude_rate_limits = null;
}

-- The number of running entries whose normalized state is the target.
unfoldable pub count_state : Text → Map RunningEntry → ℕ
count_state target [] = 0
count_state target ((id, e) ∷ rest) =
    if text_eq (normalize_state e.issue.state) target
    then count_state target rest + 1
    else count_state target rest

-- runningCountByState.
unfoldable pub running_count_by_state : RuntimeState → Text → ℕ
unfolding count_state
running_count_by_state s state = count_state (normalize_state state) s.running

-- globalAvailable.
unfoldable pub global_available : RuntimeState → ℤ
global_available s =
    let free = sub64 s.max_concurrent_agents (pos (length s.running)) in
    if ltb_ℤ free (pos 0) then pos 0 else free

-- What a handler does to the world, beside the state: workers, timers, workspaces and observers.
pub data Effect : Type 0 where
  starts_worker : (id : Text) (attempt : Option ℤ) → Effect
  cancels : (id : Text) → Effect
  stops_retry_timer : (id : Text) → Effect
  starts_retry_timer : (id : Text) (delay : ℤ) → Effect
  stops_tick_timer : Effect
  starts_tick_timer : (delay : ℤ) → Effect
  cleans_workspace : (identifier : Text) → Effect
  notifies : Snapshot → Effect
  replies : Snapshot → Effect

-- `tick_timer` is the delay of the timer that was started last; `has_notifier` is a set `notifyFn`;
-- the effects so far stand newest first.
pub record Orchestrator : Type 0 where
  pub cfg : Config
  pub template : Text
  pub state : RuntimeState
  pub open state use *
  pub tick_timer : Option ℤ
  pub has_notifier : Bool
  pub effects : List Effect

unfoldable pub effect : Effect → Orchestrator → Orchestrator
effect x o = record o { effects = x ∷ o.effects }

unfoldable pub set_running : Map RunningEntry → Orchestrator → Orchestrator
set_running m o = record o { state = record (o.state) { running = m } }

unfoldable pub set_claimed : Map (Unit {0}) → Orchestrator → Orchestrator
set_claimed m o = record o { state = record (o.state) { claimed = m } }

unfoldable pub set_retries : Map RetryEntry → Orchestrator → Orchestrator
set_retries m o = record o { state = record (o.state) { retry_attempts = m } }
