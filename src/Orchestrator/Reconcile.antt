-- ===== src/Orchestrator/Reconcile.antt =====
-- Reconciliation and startup cleanup of internal/orchestrator/reconcile.go.
pub mod Keys
pub mod Marks
use my_symphony.Base.{
  ℕ, Bool, true, false, if◌then◌else◌, List, [], ◌∷◌, none, some, ok, err, ℤ, pos, negsuc, ltb,
  ltb_ℤ, sub_ℕ,
}
use my_symphony.Go.Int64.{max_int}
use my_symphony.Go.Utf8.{Text}
use my_symphony.Go.Maps.{Map, get, put}
use my_symphony.Domain.{Issue}
use my_symphony.Orchestrator.State.{
  Orchestrator, RunningEntry, effect, set_running, cancels, cleans_workspace, last_activity,
}
use my_symphony.Orchestrator.Env.{Env}
use my_symphony.Orchestrator.Timers.{milliseconds}
use my_symphony.Orchestrator.Eligible.{is_active_state, is_terminal_state}

-- `now.Sub(t)`, which saturates.
saturate : ℤ → ℤ
saturate (pos n) = if ltb n max_int then pos n else pos max_int
saturate (negsuc n) = if ltb n max_int then negsuc n else negsuc max_int

unfoldable pub elapsed : ℕ → ℕ → ℤ
unfolding saturate
elapsed now t = saturate (sub_ℕ now t)

-- Whether the stall loop cancels the worker of an entry.
unfoldable pub is_stalled : ℤ → ℕ → RunningEntry → Bool
is_stalled stall now e =
    if e.terminating then false else ltb_ℤ stall (elapsed now (last_activity e))

-- The stall loop, over the entries as they stood at its start; each is visited once.
unfoldable pub stall_loop : ℤ → ℕ → Map RunningEntry → Orchestrator → Orchestrator
unfolding effect set_running
stall_loop stall now [] o = o
stall_loop stall now ((id, e) ∷ rest) o = stall_loop stall now rest (
    if is_stalled stall now e
    then effect (cancels id) (set_running (put id (record e { terminating = true }) o.running) o)
    else o)

-- Part A of reconcile.
unfoldable pub detect_stalls : Env → Orchestrator → Orchestrator
detect_stalls env o =
    if ltb_ℤ (pos 0) o.cfg.claude.stall_timeout_ms
    then stall_loop (milliseconds o.cfg.claude.stall_timeout_ms) env.now o.running o
    else o

-- The ids whose state part B asks for.
unfoldable pub live_ids : Map RunningEntry → List Text
live_ids [] = []
live_ids ((id, e) ∷ rest) = if e.terminating then live_ids rest else id ∷ live_ids rest

-- terminateRunning.
unfoldable pub terminate_running : Text → Bool → Bool → Orchestrator → Orchestrator
unfolding effect set_running
terminate_running id cleanup release o = elim (get id o.running) [
  | none ↦ o
  | some e ↦
      if e.terminating
      then o
      else effect (cancels id) (
          set_running
            (put id
              (record e {
                terminating = true;
                cleanup_on_exit = cleanup;
                release_on_exit = release;
              })
              o.running)
            o)
]

-- One round of the refresh loop of part B.
unfoldable pub refresh_one : Issue → Orchestrator → Orchestrator
unfolding set_running
refresh_one issue o = elim (get issue.id o.running) [
  | none ↦ o
  | some e ↦
      if e.terminating
      then o
      else if is_terminal_state o.cfg issue.state
      then terminate_running issue.id true true o
      else if is_active_state o.cfg issue.state
      then set_running
          (put issue.id
            (record e { issue = record (e.issue) { state = issue.state; labels = issue.labels } })
            o.running)
          o
      else terminate_running issue.id false true o
]

unfoldable pub refresh_all : List Issue → Orchestrator → Orchestrator
refresh_all [] o = o
refresh_all (issue ∷ rest) o = refresh_all rest (refresh_one issue o)

-- Part B of reconcile, for the ids that are left.
unfoldable pub refresh_states : Env → List Text → Orchestrator → Orchestrator
refresh_states env [] o = o
refresh_states env (id ∷ ids) o = elim (env.fetch_issue_states_by_ids (id ∷ ids)) [
  | err _ ↦ o
  | ok refreshed ↦ refresh_all refreshed o
]

-- reconcile.
unfoldable pub reconcile : Env → Orchestrator → Orchestrator
reconcile env o =
    let checked = detect_stalls env o in refresh_states env (live_ids checked.running) checked

-- The loop of startupTerminalCleanup; a failed cleanup is logged only.
unfoldable pub cleanup_all : List Issue → Orchestrator → Orchestrator
unfolding effect
cleanup_all [] o = o
cleanup_all (iss ∷ rest) o = cleanup_all rest (effect (cleans_workspace iss.identifier) o)

-- startupTerminalCleanup.
unfoldable pub startup_terminal_cleanup : Env → Orchestrator → Orchestrator
startup_terminal_cleanup env o = elim (env.fetch_issues_by_states o.cfg.tracker.terminal_states) [
  | err _ ↦ o
  | ok issues ↦ cleanup_all issues o
]
