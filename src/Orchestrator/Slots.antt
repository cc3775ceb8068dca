-- ===== src/Orchestrator/Slots.antt =====
-- The concurrency limits: the global one over every event, and the one of each tracker state.
pub mod Handlers
use my_symphony.Orchestrator.Shape.{length-put_old, schedule_tick-state, notify-state, SameKeys}
use my_symphony.Orchestrator.Timers.{schedule_tick, schedule_retry, remove_retry_timer}
use my_symphony.Orchestrator.Dispatch.{
  poll_and_dispatch, new_entry, dispatch_one, dispatch_issue, dispatch_all,
}
use my_symphony.Base.{
  true, inr, inl, false, Result-cases, Option-cases, All, ◌≤◌, ◌≡◌, ◌∷◌, ◌∙◌, ◌^◌, ◌<◌, ◌-◌, ◌-ℤ◌,
  ℤ, ℕ, pos, not, none, length, leb_ℤ, if_elim, arith, [], Option, List, Bool,
}
use my_symphony.Go.Maps.{delete, get, put, length-delete-le, has, length-put}
use my_symphony.Config.{validate_dispatch, per_state_limit}
use my_symphony.Orchestrator.State.{
  effect, set_running, set_retries, set_claimed, RunningEntry, running_count_by_state,
  global_available, Orchestrator,
}
use my_symphony.Orchestrator.Env.{
  worker_exit, tick_event, snapshot_request, retry_timer_fired, reload_config, refresh_request,
  exit_normal, exit_abnormal, agent_update, ExitReason, Event, AgentEvent, Env,
}
use my_symphony.Orchestrator.Eligible.{is_eligible}
use my_symphony.Go.Utf8.{Text}
use my_symphony.Domain.{RetryEntry, Issue}
use my_symphony.Go.Int64.{sub64}
use my_symphony.Orchestrator.Snapshots.{notify}
use my_symphony.Orchestrator.Order.{sort_for_dispatch}
use my_symphony.Orchestrator.Loop.{run, handle, on_tick}
use my_symphony.Orchestrator.Retry.{
  retire, reschedule, set_completed, retry_among, on_worker_exit, on_retry_timer, no_slot,
  find_by_id,
}
use my_symphony.Orchestrator.Update.{on_agent_update}
use my_symphony.Orchestrator.Reconcile.Keys.{reconcile-SameKeys}
use my_symphony.Orchestrator.Reconcile.{reconcile}

-- The global limit is `n`, and no more workers than that are recorded.
pub record Within (n : ℕ) (o : Orchestrator) : Type 0 where
  pub limit : o.max_concurrent_agents ≡ pos n
  pub size : length o.running ≤ n

pub sub64_lem : (n m : ℕ) → n < 2 ^ 63 → m ≤ n → sub64 (pos n) (pos m) ≡ pos (n - m)
unfolding sub64 ◌-ℤ◌
sub64_lem n m h k = ground arith

pub global_available_lem :
    (n : ℕ) (o : Orchestrator)
    → n < 2 ^ 63
    → Within n o
    → global_available o.state ≡ pos (n - length o.running)
unfolding global_available
global_available_lem n o h w = rw (w.limit, sub64_lem n (length o.running) h w.size) (ground arith)

-- A step that keeps the limit and adds no entry.
pub record Shrinks (o p : Orchestrator) : Type 0 where
  pub limit : p.max_concurrent_agents ≡ o.max_concurrent_agents
  pub size : length p.running ≤ length o.running

pub Shrinks-Within : (n : ℕ) (o p : Orchestrator) → Shrinks o p → Within n o → Within n p
Shrinks-Within n o p s w = record {
  limit = s.limit ∙ w.limit;
  size = omega (arith, s.size, w.size);
}

pub SameKeys-Within : (n : ℕ) (o p : Orchestrator) → SameKeys o p → Within n o → Within n p
SameKeys-Within n o p s w = record {
  limit = s.limit ∙ w.limit;
  size = omega (arith, s.size, w.size);
}

pub notify-Within : (n : ℕ) (env : Env) (o : Orchestrator) → Within n o → Within n (notify env o)
notify-Within n env o w = record { limit = rw notify-state w.limit; size = rw notify-state w.size }

pub schedule_tick-Within :
    (n : ℕ) (d : ℤ) (o : Orchestrator) → Within n o → Within n (schedule_tick d o)
schedule_tick-Within n d o w = record {
  limit = rw schedule_tick-state w.limit;
  size = rw schedule_tick-state w.size;
}

pub remove_retry_timer-Shrinks : (k : Text) (o : Orchestrator) → Shrinks o (remove_retry_timer k o)
unfolding remove_retry_timer
remove_retry_timer-Shrinks k o = record { limit = ground arith; size = ground arith }

pub schedule_retry-Shrinks :
    (env : Env) (k : Text) (attempt : ℤ) (identifier : Text) (url error : Option Text)
    (continuation : Bool) (o : Orchestrator)
    → Shrinks o (schedule_retry env k attempt identifier url error continuation o)
unfolding schedule_retry
schedule_retry-Shrinks env k attempt identifier url error continuation o = record {
  limit = (remove_retry_timer-Shrinks k o).limit;
  size = (remove_retry_timer-Shrinks k o).size;
}

pub dispatch_issue-Within :
    (n : ℕ) (env : Env) (issue : Issue) (attempt : Option ℤ) (o : Orchestrator)
    → Within n o
    → length o.running < n
    → Within n (dispatch_issue env issue attempt o)
unfolding dispatch_issue
dispatch_issue-Within n env issue attempt o w h =
    let s = remove_retry_timer-Shrinks issue.id (
      set_claimed (put issue.id tt o.claimed)
        (set_running (put issue.id (new_entry env issue attempt) o.running) o)) in
    record {
      limit = s.limit ∙ w.limit;
      size = ground (arith, s.size, length-put issue.id (new_entry env issue attempt) o.running);
    }

pub dispatch_one-Within :
    (n : ℕ) (env : Env) (issue : Issue) (o : Orchestrator)
    → Within n o
    → length o.running < n
    → Within n (dispatch_one env issue o)
unfolding dispatch_one
dispatch_one-Within n env issue o w h =
    if_elim (Within n) (has issue.id o.running) (λ _. w)
      λ _.
        if_elim (Within n) (has issue.id o.claimed) (λ _. w)
          λ _.
            if_elim (Within n) (not (is_eligible o.cfg issue)) (λ _. w)
              λ _.
                if_elim (Within n)
                  (leb_ℤ (per_state_limit o.cfg issue.state)
                    (pos (running_count_by_state o.state issue.state)))
                  (λ _. w) (λ _. dispatch_issue-Within n env issue none o w h)

pub dispatch_all-Within :
    (n : ℕ) (env : Env) (issues : List Issue) (o : Orchestrator)
    → n < 2 ^ 63
    → Within n o
    → Within n (dispatch_all env issues o)
unfolding dispatch_all
dispatch_all-Within n env [] o b w = w
dispatch_all-Within n env (issue ∷ rest) o b w =
    if_elim (Within n) (leb_ℤ (global_available o.state) (pos 0)) (λ _. w)
      λ free.
        dispatch_all-Within n env rest (dispatch_one env issue o) b
          (dispatch_one-Within n env issue o w (ground (arith, global_available_lem n o b w, free)))
