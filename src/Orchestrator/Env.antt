-- ===== src/Orchestrator/Env.antt =====
-- What the handlers ask of the world during one event, and events.go.
-- All readings of the clock during one event give one instant. The tracker and the workspace manager
-- are the interfaces of tracker/tracker.go and of orchestrator.go; their answers are arguments.
use my_symphony.Base.{ℕ, List, Option, Result, ℤ}
use my_symphony.Go.Utf8.{Text}
use my_symphony.Go.Value.{Value}
use my_symphony.Domain.{Issue}
use my_symphony.Config.{Config}

pub record Env : Type 0 where
  pub now : ℕ
  pub fetch_candidate_issues : Result Text (List Issue)
  pub fetch_issue_states_by_ids : List Text → Result Text (List Issue)
  pub fetch_issues_by_states : List Text → Result Text (List Issue)
  pub cleanup : Text → Option Text
  pub path_for : Text → Text
  pub new_tracker : Config → Option Text

-- agent.Usage and agent.Event of internal/agent/event.go.
pub record Usage : Type 0 where
  pub input_tokens : ℤ
  pub output_tokens : ℤ
  pub total_tokens : ℤ

pub record AgentEvent : Type 0 where
  pub event : Text
  pub timestamp : ℕ
  pub agent_pid : Option Text
  pub session_id : Text
  pub turn_id : Text
  pub message : Text
  pub detail : Text
  pub usage : Option Usage
  pub step_usage : Option Usage
  pub rate_limits : Value

pub data ExitReason : Type 0 where
  exit_normal exit_abnormal : ExitReason

-- The events of events.go; a worker's error is its message.
pub data Event : Type 0 where
  tick_event : Event
  agent_update : (issue_id : Text) (msg : AgentEvent) → Event
  worker_exit : (issue_id : Text) (reason : ExitReason) (error : Option Text) → Event
  retry_timer_fired : (issue_id : Text) → Event
  reload_config : (cfg : Config) (tmpl : Text) → Event
  snapshot_request : Event
  refresh_request : Event
