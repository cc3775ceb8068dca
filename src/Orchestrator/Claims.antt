-- ===== src/Orchestrator/Claims.antt =====
-- Which issues are claimed: no issue is dispatched twice, and none is lost.
pub mod Handlers
use my_symphony.Base.{
  some, if_elim, ◌∷◌, pos, none, leb_ℤ, inr, inl, [], Result-cases, Option-cases, List, Bool-cases,
  true, false, arith, Bool, ◌&&◌, ◌||◌, not, Option, ℤ, ◌≡◌, ℕ,
}
use my_symphony.Go.Utf8.{text_eq_iff, text_eq, Text}
use my_symphony.Orchestrator.Timers.{schedule_retry, remove_retry_timer}
use my_symphony.Orchestrator.Dispatch.{
  poll_and_dispatch, dispatch_one, dispatch_all, new_entry, dispatch_issue,
}
use my_symphony.Orchestrator.State.{
  effect, set_retries, global_available, RunningEntry, set_running, set_claimed, Orchestrator,
  RuntimeState,
}
use my_symphony.Orchestrator.Env.{
  worker_exit, tick_event, snapshot_request, retry_timer_fired, reload_config, refresh_request,
  agent_update, Event, AgentEvent, exit_normal, exit_abnormal, ExitReason, Env,
}
use my_symphony.Go.Maps.{delete, get, put, has}
use my_symphony.Domain.{RetryEntry, Issue}
use my_symphony.Orchestrator.Shape.{
  has-put_old, schedule_tick-state, notify-state, SameKeys, has-put, has-delete,
}
use my_symphony.Orchestrator.Loop.{handle, run, on_tick}
use my_symphony.Config.{Config, validate_dispatch}
use my_symphony.Orchestrator.Order.{sort_for_dispatch}
use my_symphony.Orchestrator.Retry.{
  retry_among, release_claim, on_retry_timer, on_reload, no_slot, find_by_id, retire, reschedule,
  set_completed, on_worker_exit,
}
use my_symphony.Orchestrator.Reconcile.Keys.{reconcile-SameKeys}
use my_symphony.Orchestrator.Snapshots.{notify}
use my_symphony.Orchestrator.Reconcile.{reconcile}
use my_symphony.Orchestrator.Eligible.{is_eligible}
use my_symphony.Orchestrator.Update.{on_agent_update}

-- An issue is claimed exactly if it is running or waits for a retry, and never both.
abbrev pub ClaimAt : Text → RuntimeState → Type 0
ClaimAt id s =
    (has id s.claimed ≡ (has id s.running || has id s.retry_attempts))
    × ((has id s.running && has id s.retry_attempts) ≡ false)

abbrev pub Claimed : Text → Orchestrator → Type 0
Claimed id o = ClaimAt id o.state

-- The keys of the three maps at an id.
pub remove_retry_timer-keys :
    (k id : Text) (o : Orchestrator)
    → ((remove_retry_timer k o).running ≡ o.running)
      × ((remove_retry_timer k o).claimed ≡ o.claimed)
      × (has id (remove_retry_timer k o).retry_attempts
          ≡ (not (text_eq k id) && has id o.retry_attempts))
unfolding remove_retry_timer
remove_retry_timer-keys k id o =
    (ground arith, ground arith, ground (arith, has-delete k id o.retry_attempts, text_eq_iff k id))

pub schedule_retry-keys :
    (env : Env) (k : Text) (attempt : ℤ) (identifier : Text) (url error : Option Text)
    (continuation : Bool) (o : Orchestrator) (id : Text)
    → let o' = schedule_retry env k attempt identifier url error continuation o in
      (o'.running ≡ o.running)
      × (has id o'.claimed ≡ (text_eq k id || has id o.claimed))
      × (has id o'.retry_attempts ≡ (text_eq k id || has id o.retry_attempts))
unfolding schedule_retry
schedule_retry-keys env k attempt identifier url error continuation o id =
    let keys = remove_retry_timer-keys k id o in
    (keys.0, rw has-put (rw keys.1), rw has-put (ground (arith, keys.2)))

pub dispatch_issue-keys :
    (env : Env) (issue : Issue) (attempt : Option ℤ) (o : Orchestrator) (id : Text)
    → let o' = dispatch_issue env issue attempt o in
      (has id o'.running ≡ (text_eq issue.id id || has id o.running))
      × (has id o'.claimed ≡ (text_eq issue.id id || has id o.claimed))
      × (has id o'.retry_attempts ≡ (not (text_eq issue.id id) && has id o.retry_attempts))
unfolding dispatch_issue
dispatch_issue-keys env issue attempt o id =
    let keys = remove_retry_timer-keys issue.id id (
      set_claimed (put issue.id tt o.claimed)
        (set_running (put issue.id (new_entry env issue attempt) o.running) o)) in
    (rw keys.0 (has-put _ _ _ _), rw keys.1 (has-put _ _ _ _), keys.2)

pub schedule_retry-ClaimAt :
    (env : Env) (k : Text) (attempt : ℤ) (identifier : Text) (url error : Option Text)
    (continuation : Bool) (o : Orchestrator) (id : Text)
    → (text_eq k id ≡ false → ClaimAt id o.state)
    → (text_eq k id ≡ true → has id o.running ≡ false)
    → ClaimAt id (schedule_retry env k attempt identifier url error continuation o).state
schedule_retry-ClaimAt env k attempt identifier url error continuation o id other self =
    ground (arith, schedule_retry-keys env k attempt identifier url error continuation o id)

pub dispatch_issue-ClaimAt :
    (env : Env) (issue : Issue) (attempt : Option ℤ) (o : Orchestrator) (id : Text)
    → (text_eq issue.id id ≡ false → ClaimAt id o.state)
    → ClaimAt id (dispatch_issue env issue attempt o).state
dispatch_issue-ClaimAt env issue attempt o id other =
    ground (arith, dispatch_issue-keys env issue attempt o id)

pub SameKeys-ClaimAt :
    (o p : Orchestrator) (id : Text) → SameKeys o p → ClaimAt id o.state → ClaimAt id p.state
SameKeys-ClaimAt o p id h c = rw (h.claimed, h.retries) (rw (h.keys id) c)

pub dispatch_one-ClaimAt :
    (env : Env) (issue : Issue) (o : Orchestrator) (id : Text)
    → ClaimAt id o.state
    → ClaimAt id (dispatch_one env issue o).state
unfolding dispatch_one
dispatch_one-ClaimAt env issue o id c =
    ground (arith, dispatch_issue-ClaimAt env issue none o id (λ _. c))

pub dispatch_all-ClaimAt :
    (env : Env) (issues : List Issue) (o : Orchestrator) (id : Text)
    → ClaimAt id o.state
    → ClaimAt id (dispatch_all env issues o).state
unfolding dispatch_all
dispatch_all-ClaimAt env [] o id c = c
dispatch_all-ClaimAt env (issue ∷ rest) o id c =
    elim (Bool-cases (leb_ℤ (global_available o.state) (pos 0))) [
      | inl e ↦ rw e c
      | inr e ↦ rw e (
          dispatch_all-ClaimAt env rest (dispatch_one env issue o) id
            (dispatch_one-ClaimAt env issue o id c))
    ]

pub notify-ClaimAt :
    (env : Env) (o : Orchestrator) (id : Text)
    → ClaimAt id o.state
    → ClaimAt id (notify env o).state
notify-ClaimAt env o id c = rw (notify-state env o) c

pub poll_and_dispatch-ClaimAt :
    (env : Env) (o : Orchestrator) (id : Text)
    → ClaimAt id o.state
    → ClaimAt id (poll_and_dispatch env o).state
unfolding poll_and_dispatch
poll_and_dispatch-ClaimAt env o id c = elim (Option-cases (validate_dispatch o.cfg)) [
  | inr (_, e) ↦ rw (e, poll_and_dispatch) (notify-ClaimAt env o id c)
  | inl e ↦ elim (Result-cases env.fetch_candidate_issues) [
    | inr (_, f) ↦ rw (e, f, poll_and_dispatch) (notify-ClaimAt env o id c)
    | inl (issues, f) ↦
        rw (e, f, poll_and_dispatch)
          (notify-ClaimAt env _ id (dispatch_all-ClaimAt env (sort_for_dispatch issues) o id c))
  ]
]

pub on_tick-ClaimAt :
    (env : Env) (o : Orchestrator) (id : Text)
    → ClaimAt id o.state
    → ClaimAt id (on_tick env o).state
unfolding on_tick
on_tick-ClaimAt env o id c = rw schedule_tick-state (
    poll_and_dispatch-ClaimAt env (reconcile env o) id
      (SameKeys-ClaimAt o (reconcile env o) id (reconcile-SameKeys env o) c))

pub retire-keys :
    (env : Env) (k : Text) (entry : RunningEntry) (o : Orchestrator) (id : Text)
    → let p = retire env k entry o in
      (has id p.running ≡ (not (text_eq k id) && has id o.running))
      × (p.claimed ≡ o.claimed)
      × (p.retry_attempts ≡ o.retry_attempts)
unfolding retire
retire-keys env k entry o id =
    (ground (arith, has-delete k id o.running), ground arith, ground arith)

pub reschedule-ClaimAt :
    (env : Env) (k : Text) (reason : ExitReason) (error : Option Text) (entry : RunningEntry)
    (o : Orchestrator) (id : Text)
    → (text_eq k id ≡ false → ClaimAt id o.state)
    → (text_eq k id ≡ true → has id o.running ≡ false)
    → ClaimAt id (reschedule env k reason error entry o).state
unfolding reschedule
reschedule-ClaimAt env k exit_normal error entry o id other self =
    schedule_retry-ClaimAt env k _ _ _ _ true (set_completed k o) id other self
reschedule-ClaimAt env k exit_abnormal error entry o id other self =
    schedule_retry-ClaimAt env k _ _ _ _ false o id other self

pub on_worker_exit-ClaimAt :
    (env : Env) (k : Text) (reason : ExitReason) (error : Option Text) (o : Orchestrator)
    (id : Text)
    → ClaimAt id o.state
    → ClaimAt id (on_worker_exit env k reason error o).state
unfolding on_worker_exit set_claimed
on_worker_exit-ClaimAt env k reason error o id c = elim (Option-cases (get k o.running)) [
  | inl e ↦ rw (e, on_worker_exit) c
  | inr (entry, e) ↦
      let keys = retire-keys env k entry o id in
      rw (e, on_worker_exit)
        (if_elim (Claimed id) entry.release_on_exit
          (λ _. notify-ClaimAt env _ id (
            ground (arith, keys, has-delete k id (retire env k entry o).claimed, text_eq_iff k id)))
          (λ _. notify-ClaimAt env _ id (
            reschedule-ClaimAt env k reason error entry (retire env k entry o) id
              (λ ne. ground (arith, keys)) (λ eq. ground (arith, keys)))))
]
