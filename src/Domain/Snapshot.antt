-- ===== src/Domain/Snapshot.antt =====
-- internal/domain/snapshot.go: what observers see of the orchestrator.
use my_symphony.Base.{ℕ, List, Option, ℤ}
use my_symphony.Go.Utf8.{Text}
use my_symphony.Go.Value.{Value}
use my_symphony.Domain.{AgentActivity, Totals}

pub record SnapshotCounts : Type 0 where
  pub running : ℕ
  pub retrying : ℕ

pub record TokenCounts : Type 0 where
  pub input_tokens : ℤ
  pub output_tokens : ℤ
  pub total_tokens : ℤ

pub record RunningRow : Type 0 where
  pub issue_id : Text
  pub issue_identifier : Text
  pub issue_url : Option Text
  pub state : Text
  pub session_id : Text
  pub turn_count : ℤ
  pub last_event : Text
  pub last_message : Text
  pub started_at : ℕ
  pub last_event_at : Option ℕ
  pub tokens : TokenCounts
  pub activity : List AgentActivity
  pub workspace_path : Text
  pub retry_attempt : ℤ

pub record RetryRow : Type 0 where
  pub issue_id : Text
  pub issue_identifier : Text
  pub issue_url : Option Text
  pub attempt : ℤ
  pub due_at_ms : ℤ
  pub error : Option Text

pub record Snapshot : Type 0 where
  pub generated_at : ℕ
  pub counts : SnapshotCounts
  pub running : List RunningRow
  pub retrying : List RetryRow
  pub claude_totals : Totals
  pub rate_limits : Value
