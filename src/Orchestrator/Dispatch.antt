-- ===== src/Orchestrator/Dispatch.antt =====
-- onTick and dispatchIssue of internal/orchestrator/orchestrator.go, less reconciliation.
use my_symphony.Base.{
  false, not, if◌then◌else◌, List, [], ◌∷◌, Option, none, some, ok, err, ℤ, pos, leb_ℤ,
}
use my_symphony.Go.Maps.{put, has}
use my_symphony.Domain.{Issue, LiveSession}
use my_symphony.Config.{per_state_limit, validate_dispatch}
use my_symphony.Orchestrator.State.{
  Orchestrator, RunningEntry, effect, set_running, set_claimed, starts_worker, global_available,
  running_count_by_state,
}
use my_symphony.Orchestrator.Env.{Env}
use my_symphony.Orchestrator.Timers.{remove_retry_timer}
use my_symphony.Orchestrator.Eligible.{is_eligible}
use my_symphony.Orchestrator.Order.{sort_for_dispatch}
use my_symphony.Orchestrator.Snapshots.{notify}

-- normalizeAttempt.
unfoldable pub normalize_attempt : Option ℤ → ℤ
normalize_attempt none = pos 0
normalize_attempt (some n) = n

abbrev pub new_session : LiveSession
new_session = record {
  session_id = [];
  thread_id = [];
  turn_id = [];
  agent_pid = none;
  last_agent_event = none;
  last_agent_timestamp = none;
  last_agent_message = [];
  claude_input_tokens = pos 0;
  claude_output_tokens = pos 0;
  claude_total_tokens = pos 0;
  last_reported_input_tokens = pos 0;
  last_reported_output_tokens = pos 0;
  last_reported_total_tokens = pos 0;
  turn_count = pos 0;
  recent_activity = [];
}

-- The entry that dispatchIssue records.
unfoldable pub new_entry : Env → Issue → Option ℤ → RunningEntry
unfolding normalize_attempt
new_entry env issue attempt = record {
  identifier = issue.identifier;
  issue = issue;
  started_at = env.now;
  session = new_session;
  retry_attempt = normalize_attempt attempt;
  workspace_path = env.path_for issue.identifier;
  terminating = false;
  cleanup_on_exit = false;
  release_on_exit = false;
}

-- dispatchIssue.
unfoldable pub dispatch_issue : Env → Issue → Option ℤ → Orchestrator → Orchestrator
unfolding effect set_running set_claimed new_entry
dispatch_issue env issue attempt o =
    let running = set_running (put issue.id (new_entry env issue attempt) o.running) o in
    let claimed = set_claimed (put issue.id tt running.claimed) running in
    effect (starts_worker issue.id attempt) (remove_retry_timer issue.id claimed)

-- One round of the dispatch loop of onTick, past its `break`.
unfoldable pub dispatch_one : Env → Issue → Orchestrator → Orchestrator
dispatch_one env issue o =
    if has issue.id o.running
    then o
    else if has issue.id o.claimed
    then o
    else if not (is_eligible o.cfg issue)
    then o
    else if leb_ℤ (per_state_limit o.cfg issue.state)
        (pos (running_count_by_state o.state issue.state))
    then o
    else dispatch_issue env issue none o

-- The dispatch loop of onTick.
unfoldable pub dispatch_all : Env → List Issue → Orchestrator → Orchestrator
dispatch_all env [] o = o
dispatch_all env (issue ∷ rest) o =
    if leb_ℤ (global_available o.state) (pos 0)
    then o
    else dispatch_all env rest (dispatch_one env issue o)

-- onTick after reconciliation, up to the deferred scheduleTick.
unfoldable pub poll_and_dispatch : Env → Orchestrator → Orchestrator
poll_and_dispatch env o = elim (validate_dispatch o.cfg) [
  | some _ ↦ notify env o
  | none ↦ elim env.fetch_candidate_issues [
    | err _ ↦ notify env o
    | ok issues ↦ notify env (dispatch_all env (sort_for_dispatch issues) o)
  ]
]
