-- ===== src/Domain.antt =====
-- internal/domain/domain.go: the normalized data that the layers share.
-- An instant is a number of nanoseconds; `created_at` and `updated_at` count from the Unix epoch.
pub mod Snapshot
pub mod Keys
use my_symphony.Base.{ℕ, Bool, List, Option, ℤ}
use my_symphony.Go.Utf8.{Text}
use my_symphony.Go.Strings.{to_lower, trim_space}

pub record BlockerRef : Type 0 where
  pub id : Option Text
  pub identifier : Option Text
  pub state : Option Text

pub record Issue : Type 0 where
  pub id : Text
  pub identifier : Text
  pub title : Text
  pub description : Option Text
  pub priority : Option ℤ
  pub state : Text
  pub branch_name : Option Text
  pub url : Option Text
  pub labels : List Text
  pub blocked_by : List BlockerRef
  pub created_at : Option ℤ
  pub updated_at : Option ℤ
  pub assignee : Option Text

pub record Workspace : Type 0 where
  pub path : Text
  pub key : Text
  pub created_now : Bool

pub record AgentActivity : Type 0 where
  pub timestamp : ℕ
  pub event : Text
  pub turn_id : Text
  pub message : Text
  pub detail : Text
  pub input_tokens : ℤ
  pub output_tokens : ℤ

pub record LiveSession : Type 0 where
  pub session_id : Text
  pub thread_id : Text
  pub turn_id : Text
  pub agent_pid : Option Text
  pub last_agent_event : Option Text
  pub last_agent_timestamp : Option ℕ
  pub last_agent_message : Text
  pub claude_input_tokens : ℤ
  pub claude_output_tokens : ℤ
  pub claude_total_tokens : ℤ
  pub last_reported_input_tokens : ℤ
  pub last_reported_output_tokens : ℤ
  pub last_reported_total_tokens : ℤ
  pub turn_count : ℤ
  pub recent_activity : List AgentActivity

-- `timer` is the delay in nanoseconds of the timer that was started for the entry.
pub record RetryEntry : Type 0 where
  pub issue_id : Text
  pub identifier : Text
  pub attempt : ℤ
  pub due_at_ms : ℤ
  pub timer : Option ℤ
  pub error : Option Text
  pub url : Option Text

-- The running time is kept in nanoseconds, exactly, where the code adds up float64 seconds.
pub record Totals : Type 0 where
  pub input_tokens : ℤ
  pub output_tokens : ℤ
  pub total_tokens : ℤ
  pub seconds_running : ℕ

-- NormalizeState.
unfoldable pub normalize_state : Text → Text
unfolding to_lower trim_space
normalize_state state = to_lower (trim_space state)
