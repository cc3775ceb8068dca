-- ===== src/Orchestrator/Retry.antt =====
-- onWorkerExit, onRetryTimer and onReload of internal/orchestrator/orchestrator.go.
pub mod Exits
use my_symphony.Base.{
  ◌+◌, ◌-◌, Bool, true, false, not, ◌||◌, if◌then◌else◌, List, [], ◌∷◌, ◌++◌, Option, none, some,
  ok, err, pos, leb_ℤ, eqb_ℤ,
}
use my_symphony.Go.Int64.{add64}
use my_symphony.Go.Utf8.{Text, ascii, text_eq}
use my_symphony.Go.Maps.{get, put, delete}
use my_symphony.Domain.{Issue, RetryEntry}
use my_symphony.Config.{Config, per_state_limit}
use my_symphony.Orchestrator.State.{
  Orchestrator, RunningEntry, effect, set_claimed, set_retries, cleans_workspace, global_available,
  running_count_by_state,
}
use my_symphony.Orchestrator.Env.{Env, ExitReason, exit_normal, exit_abnormal}
use my_symphony.Orchestrator.Timers.{schedule_retry, schedule_tick, milliseconds}
use my_symphony.Orchestrator.Eligible.{is_eligible}
use my_symphony.Orchestrator.Dispatch.{dispatch_issue}
use my_symphony.Orchestrator.Snapshots.{notify}

-- The first lines of onWorkerExit: the entry goes, its time is added up, its workspace is cleaned.
unfoldable pub retire : Env → Text → RunningEntry → Orchestrator → Orchestrator
unfolding effect
retire env id entry o =
    let gone = record o {
      state = record (o.state) {
        running = delete id o.running;
        claude_totals = record (o.claude_totals) {
          seconds_running = o.claude_totals.seconds_running + (env.now - entry.started_at);
        };
      };
    } in
    if entry.cleanup_on_exit then effect (cleans_workspace entry.identifier) gone else gone

-- The reason that a retry entry keeps of an abnormal exit.
unfoldable pub exit_message : Option Text → Text
exit_message none = ascii "worker exited"
exit_message (some e) = ascii "worker exited: " ++ e

unfoldable pub set_completed : Text → Orchestrator → Orchestrator
set_completed id o = record o { state = record (o.state) { completed = put id tt o.completed } }

-- What follows the end of a worker that was not released.
unfoldable pub reschedule :
    Env → Text → ExitReason → Option Text → RunningEntry → Orchestrator → Orchestrator
unfolding set_completed
reschedule env id exit_normal error entry o =
    schedule_retry env id (pos 1) entry.identifier entry.issue.url none true (set_completed id o)
reschedule env id exit_abnormal error entry o =
    schedule_retry env id (add64 entry.retry_attempt (pos 1)) entry.identifier entry.issue.url
      (some (exit_message error)) false o

-- onWorkerExit.
unfoldable pub on_worker_exit : Env → Text → ExitReason → Option Text → Orchestrator → Orchestrator
unfolding set_claimed
on_worker_exit env id reason error o = elim (get id o.running) [
  | none ↦ o
  | some entry ↦
      let retired = retire env id entry o in
      if entry.release_on_exit
      then notify env (set_claimed (delete id retired.claimed) retired)
      else notify env (reschedule env id reason error entry retired)
]

-- findByID.
unfoldable pub find_by_id : List Issue → Text → Option Issue
find_by_id [] id = none
find_by_id (iss ∷ rest) id = if text_eq iss.id id then some iss else find_by_id rest id

-- Whether onRetryTimer finds no slot for an issue.
unfoldable pub no_slot : Issue → Orchestrator → Bool
no_slot issue o =
    eqb_ℤ (global_available o.state) (pos 0)
    || leb_ℤ (per_state_limit o.cfg issue.state) (pos (running_count_by_state o.state issue.state))

-- The release of a claim in onRetryTimer.
unfoldable pub release_claim : Env → Text → Orchestrator → Orchestrator
unfolding set_claimed
release_claim env id o = notify env (set_claimed (delete id o.claimed) o)

-- onRetryTimer for an issue that was fetched and may still run.
unfoldable pub retry_issue : Env → Text → RetryEntry → Issue → Orchestrator → Orchestrator
retry_issue env id entry issue o =
    if no_slot issue o
    then schedule_retry env id (add64 entry.attempt (pos 1)) issue.identifier issue.url
        (some (ascii "no available orchestrator slots")) false o
    else notify env (dispatch_issue env issue (some entry.attempt) o)

-- onRetryTimer with the candidates at hand.
unfoldable pub retry_among : Env → Text → RetryEntry → List Issue → Orchestrator → Orchestrator
unfolding retry_issue release_claim
retry_among env id entry candidates o = elim (find_by_id candidates id) [
  | none ↦ release_claim env id o
  | some issue ↦
      if not (is_eligible o.cfg issue)
      then release_claim env id o
      else retry_issue env id entry issue o
]

-- onRetryTimer.
unfoldable pub on_retry_timer : Env → Text → Orchestrator → Orchestrator
unfolding set_retries
on_retry_timer env id o = elim (get id o.retry_attempts) [
  | none ↦ o
  | some entry ↦
      let fired = set_retries (delete id o.retry_attempts) o in
      elim env.fetch_candidate_issues [
        | err _ ↦
            schedule_retry env id (add64 entry.attempt (pos 1)) entry.identifier entry.url
              (some (ascii "retry poll failed")) false fired
        | ok candidates ↦ retry_among env id entry candidates fired
      ]
]

-- onReload; the tracker and the workspace manager are rebuilt from the configuration.
unfoldable pub on_reload : Env → Config → Text → Orchestrator → Orchestrator
on_reload env cfg tmpl o = elim (env.new_tracker cfg) [
  | some _ ↦ o
  | none ↦ schedule_tick (milliseconds cfg.polling.interval_ms) (record o {
    cfg = cfg;
    template = tmpl;
    state = record (o.state) {
      poll_interval_ms = cfg.polling.interval_ms;
      max_concurrent_agents = cfg.agent.max_concurrent;
    };
  })
]
