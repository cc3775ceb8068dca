-- ===== src/Orchestrator/Starts.antt =====
-- At most one worker for each issue: how many have been started, against how many have ended.
pub mod Handlers
use my_symphony.Orchestrator.Retry.{retire, reschedule, set_completed}
use my_symphony.Orchestrator.Eligible.{is_eligible}
use my_symphony.Orchestrator.Reconcile.{
  reconcile, terminate_running, stall_loop, refresh_states, refresh_one, refresh_all, live_ids,
  is_stalled, detect_stalls,
}
use my_symphony.Base.{
  ◌≡◌, ◌∷◌, ◌∙◌, ◌+◌, ℤ, ℕ, true, refl, pos, not, none, ltb_ℤ, leb_ℤ, inr, inl, if◌then◌else◌,
  if_elim, false, arith, [], Result-cases, Option, List, Bool,
}
use my_symphony.Orchestrator.Dispatch.{new_entry, dispatch_one, dispatch_issue}
use my_symphony.Orchestrator.State.{
  cancels, effect, starts_worker, set_running, set_claimed, running_count_by_state, RunningEntry,
  Orchestrator, Effect,
}
use my_symphony.Orchestrator.Env.{exit_normal, exit_abnormal, ExitReason, Env}
use my_symphony.Go.Utf8.{text_eq_iff, text_eq, Text}
use my_symphony.Domain.{Issue}
use my_symphony.Orchestrator.Timers.{
  milliseconds, schedule_tick, schedule_retry, remove_retry_timer,
}
use my_symphony.Orchestrator.Claims.{dispatch_issue-keys}
use my_symphony.Config.{per_state_limit}
use my_symphony.Go.Maps.{put, has, Map}
use my_symphony.Orchestrator.Snapshots.{notify}

-- How often a worker was started for an issue.
unfoldable pub starts : Text → List Effect → ℕ
starts id [] = 0
starts id (starts_worker k attempt ∷ rest) = (if text_eq k id then 1 else 0) + starts id rest
starts id (_ ∷ rest) = starts id rest

abbrev pub bit : Bool → ℕ
bit true = 1
bit false = 0

-- A step that starts no worker.
abbrev pub Quiet : Text → Orchestrator → Orchestrator → Type 0
Quiet id o p = starts id p.effects ≡ starts id o.effects

pub notify-Quiet : (id : Text) (env : Env) (o : Orchestrator) → Quiet id o (notify env o)
unfolding notify starts
notify-Quiet id env o = ground arith

pub schedule_tick-Quiet : (id : Text) (d : ℤ) (o : Orchestrator) → Quiet id o (schedule_tick d o)
unfolding schedule_tick starts
schedule_tick-Quiet id d o = ground arith

pub remove_retry_timer-Quiet :
    (id k : Text) (o : Orchestrator) → Quiet id o (remove_retry_timer k o)
unfolding remove_retry_timer starts
remove_retry_timer-Quiet id k o = ground arith

pub schedule_retry-Quiet :
    (id : Text) (env : Env) (k : Text) (attempt : ℤ) (identifier : Text) (url error : Option Text)
    (continuation : Bool) (o : Orchestrator)
    → Quiet id o (schedule_retry env k attempt identifier url error continuation o)
unfolding schedule_retry starts
schedule_retry-Quiet id env k attempt identifier url error continuation o =
    remove_retry_timer-Quiet id k o

pub retire-Quiet :
    (id : Text) (env : Env) (k : Text) (entry : RunningEntry) (o : Orchestrator)
    → Quiet id o (retire env k entry o)
unfolding retire starts
retire-Quiet id env k entry o = ground arith

pub reschedule-Quiet :
    (id : Text) (env : Env) (k : Text) (reason : ExitReason) (error : Option Text)
    (entry : RunningEntry) (o : Orchestrator)
    → Quiet id o (reschedule env k reason error entry o)
unfolding reschedule
reschedule-Quiet id env k exit_normal error entry o =
    schedule_retry-Quiet id env k _ _ _ _ true (set_completed k o)
reschedule-Quiet id env k exit_abnormal error entry o =
    schedule_retry-Quiet id env k _ _ _ _ false o

pub terminate_running-Quiet :
    (id k : Text) (cleanup release : Bool) (o : Orchestrator)
    → Quiet id o (terminate_running k cleanup release o)
unfolding terminate_running starts
terminate_running-Quiet id k cleanup release o = ground arith

pub stall_loop-Quiet :
    (id : Text) (stall : ℤ) (now : ℕ) (m : Map RunningEntry) (o : Orchestrator)
    → Quiet id o (stall_loop stall now m o)
unfolding stall_loop starts
stall_loop-Quiet id stall now [] o = refl
stall_loop-Quiet id stall now ((k, e) ∷ rest) o =
    if_elim
      (λ (p : Orchestrator). starts id (stall_loop stall now rest p).effects ≡ starts id o.effects)
      (is_stalled stall now e)
      (λ _.
        stall_loop-Quiet id stall now rest
          (effect (cancels k) (set_running (put k (record e { terminating = true }) o.running) o)))
      (λ _. stall_loop-Quiet id stall now rest o)

pub refresh_one-Quiet :
    (id : Text) (issue : Issue) (o : Orchestrator) → Quiet id o (refresh_one issue o)
unfolding refresh_one
refresh_one-Quiet id issue o = ground (
  arith,
  terminate_running-Quiet id issue.id true true o,
  terminate_running-Quiet id issue.id false true o,
)

pub refresh_all-Quiet :
    (id : Text) (issues : List Issue) (o : Orchestrator) → Quiet id o (refresh_all issues o)
unfolding refresh_all
refresh_all-Quiet id [] o = refl
refresh_all-Quiet id (issue ∷ rest) o =
    refresh_all-Quiet id rest (refresh_one issue o) ∙ refresh_one-Quiet id issue o

pub refresh_states-Quiet :
    (id : Text) (env : Env) (ids : List Text) (o : Orchestrator)
    → Quiet id o (refresh_states env ids o)
unfolding refresh_states
refresh_states-Quiet id env [] o = refl
refresh_states-Quiet id env (k ∷ ids) o =
    elim (Result-cases (env.fetch_issue_states_by_ids (k ∷ ids))) [
      | inl (refreshed, e) ↦ rw (e, refresh_states) (refresh_all-Quiet id refreshed o)
      | inr (_, e) ↦ rw (e, refresh_states) refl
    ]

pub detect_stalls-Quiet :
    (id : Text) (env : Env) (o : Orchestrator) → Quiet id o (detect_stalls env o)
unfolding detect_stalls
detect_stalls-Quiet id env o =
    if_elim (Quiet id o) (ltb_ℤ (pos 0) o.cfg.claude.stall_timeout_ms)
      (λ _. stall_loop-Quiet id (milliseconds o.cfg.claude.stall_timeout_ms) env.now o.running o)
      (λ _. refl)

pub reconcile-Quiet : (id : Text) (env : Env) (o : Orchestrator) → Quiet id o (reconcile env o)
unfolding reconcile
reconcile-Quiet id env o =
    refresh_states-Quiet id env (live_ids (detect_stalls env o).running) (detect_stalls env o)
    ∙ detect_stalls-Quiet id env o

-- A step starts a worker for the issue exactly if it makes the issue run.
abbrev pub Balanced : Text → Orchestrator → Orchestrator → Type 0
Balanced id o p =
    starts id p.effects + bit (has id o.running) ≡ starts id o.effects + bit (has id p.running)

pub dispatch_issue-starts :
    (id : Text) (env : Env) (issue : Issue) (attempt : Option ℤ) (o : Orchestrator)
    → starts id (dispatch_issue env issue attempt o).effects
      ≡ (if text_eq issue.id id then 1 else 0) + starts id o.effects
unfolding dispatch_issue starts
dispatch_issue-starts id env issue attempt o = ground (
  arith,
  remove_retry_timer-Quiet id issue.id (
      set_claimed (put issue.id tt o.claimed)
        (set_running (put issue.id (new_entry env issue attempt) o.running) o)),
)

pub dispatch_issue-Balanced :
    (id : Text) (env : Env) (issue : Issue) (attempt : Option ℤ) (o : Orchestrator)
    → (text_eq issue.id id ≡ true → has id o.running ≡ false)
    → Balanced id o (dispatch_issue env issue attempt o)
dispatch_issue-Balanced id env issue attempt o idle = ground (
  arith,
  dispatch_issue-starts id env issue attempt o,
  dispatch_issue-keys env issue attempt o id,
)

pub dispatch_one-Balanced :
    (id : Text) (env : Env) (issue : Issue) (o : Orchestrator)
    → Balanced id o (dispatch_one env issue o)
unfolding dispatch_one
dispatch_one-Balanced id env issue o =
    if_elim (Balanced id o) (has issue.id o.running) (λ _. refl)
      λ idle.
        if_elim (Balanced id o) (has issue.id o.claimed) (λ _. refl)
          λ _.
            if_elim (Balanced id o) (not (is_eligible o.cfg issue)) (λ _. refl)
              λ _.
                if_elim (Balanced id o)
                  (leb_ℤ (per_state_limit o.cfg issue.state)
                    (pos (running_count_by_state o.state issue.state)))
                  (λ _. refl)
                  (λ _.
                    dispatch_issue-Balanced id env issue none o
                      (λ same. rw (← (text_eq_iff issue.id id).0 same) idle))
