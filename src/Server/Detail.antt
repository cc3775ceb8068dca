-- ===== src/Server/Detail.antt =====
-- internal/httpserver/detail.go.
use my_symphony.Base.{ℕ, ℤ, List, [], ◌∷◌, Option, none, some, if◌then◌else◌, not}
use my_symphony.Go.Utf8.{Text, ascii, text_eq}
use my_symphony.Domain.{AgentActivity}
use my_symphony.Domain.Snapshot.{Snapshot, RunningRow, RetryRow, TokenCounts}

-- The object under "running".
pub record RunningDetail : Type 0 where
  pub session_id : Text
  pub turn_count : ℤ
  pub state : Text
  pub started_at : ℕ
  pub last_event : Text
  pub last_message : Text
  pub activity : List AgentActivity
  pub tokens : TokenCounts
  pub last_event_at : Option ℕ

-- The object under "retry".
pub record RetryDetail : Type 0 where
  pub attempt : ℤ
  pub due_at_ms : ℤ
  pub error : Option Text

-- The response: `workspace` and `attempts` are left out of a retry's, and "tracked" is always the
-- empty object.
pub record IssueDetail : Type 0 where
  pub issue_identifier : Text
  pub issue_id : Text
  pub status : Text
  pub workspace_path : Option Text
  pub current_retry_attempt : Option ℤ
  pub running : Option RunningDetail
  pub retry : Option RetryDetail
  pub last_error : Option Text

-- activityList: its maps have a key for each field of an activity.
unfoldable pub activity_list : List AgentActivity → List AgentActivity
activity_list [] = []
activity_list (a ∷ rest) = a ∷ activity_list rest

unfoldable pub running_detail : RunningRow → IssueDetail
unfolding activity_list
running_detail row = record {
  issue_identifier = row.issue_identifier;
  issue_id = row.issue_id;
  status = ascii "running";
  workspace_path = some row.workspace_path;
  current_retry_attempt = some row.retry_attempt;
  running = some (record {
    session_id = row.session_id;
    turn_count = row.turn_count;
    state = row.state;
    started_at = row.started_at;
    last_event = row.last_event;
    last_message = row.last_message;
    activity = activity_list row.activity;
    tokens = row.tokens;
    last_event_at = row.last_event_at;
  });
  retry = none;
  last_error = none;
}

unfoldable pub retrying_detail : RetryRow → IssueDetail
retrying_detail row = record {
  issue_identifier = row.issue_identifier;
  issue_id = row.issue_id;
  status = ascii "retrying";
  workspace_path = none;
  current_retry_attempt = none;
  running = none;
  retry = some (record { attempt = row.attempt; due_at_ms = row.due_at_ms; error = row.error });
  last_error = row.error;
}

-- The first loop of buildIssueDetail.
unfoldable pub find_running : List RunningRow → Text → Option IssueDetail
unfolding running_detail
find_running [] identifier = none
find_running (row ∷ rest) identifier =
    if not (text_eq row.issue_identifier identifier)
    then find_running rest identifier
    else some (running_detail row)

-- The second loop of buildIssueDetail.
unfoldable pub find_retrying : List RetryRow → Text → Option IssueDetail
unfolding retrying_detail
find_retrying [] identifier = none
find_retrying (row ∷ rest) identifier =
    if not (text_eq row.issue_identifier identifier)
    then find_retrying rest identifier
    else some (retrying_detail row)

-- buildIssueDetail.
unfoldable pub build_issue_detail : Snapshot → Text → Option IssueDetail
unfolding find_running find_retrying
build_issue_detail snap identifier = elim (find_running snap.running identifier) [
  | some detail ↦ some detail
  | none ↦ find_retrying snap.retrying identifier
]
