-- ===== src/Orchestrator/Starts/Handlers.antt =====
-- Every event of the loop: a worker is started when its issue begins to run.
use my_symphony.Orchestrator.State.{
  effect, set_retries, RunningEntry, global_available, Orchestrator,
}
use my_symphony.Orchestrator.Env.{
  worker_exit, tick_event, snapshot_request, retry_timer_fired, reload_config, refresh_request,
  exit_normal, exit_abnormal, agent_update, Event, AgentEvent, ExitReason, Env,
}
use my_symphony.Orchestrator.Dispatch.{poll_and_dispatch, dispatch_one, dispatch_all}
use my_symphony.Base.{
  ◌∙◌, ◌+◌, ℤ, ℕ, Bool, ◌≡◌, ◌∷◌, ◌&&◌, true, refl, pos, not, leb_ℤ, inr, inl, if_elim, false,
  arith, [], Result-cases, Option-cases, Option, List,
}
use my_symphony.Domain.{RetryEntry, Issue}
use my_symphony.Orchestrator.Retry.{
  retire, reschedule, set_completed, on_retry_timer, on_reload, no_slot, find_by_id, retry_among,
  on_worker_exit,
}
use my_symphony.Orchestrator.Loop.{run, handle, on_tick}
use my_symphony.Orchestrator.Reconcile.Keys.{reconcile-SameKeys}
use my_symphony.Orchestrator.Shape.{has-put_old, schedule_tick-state, notify-state}
use my_symphony.Config.{Config, validate_dispatch}
use my_symphony.Go.Utf8.{text_eq_iff, text_eq, Text}
use my_symphony.Orchestrator.Order.{sort_for_dispatch}
use my_symphony.Orchestrator.Starts.{
  bit, schedule_tick-Quiet, schedule_retry-Quiet, retire-Quiet, reschedule-Quiet, reconcile-Quiet,
  notify-Quiet, dispatch_one-Balanced, dispatch_issue-Balanced, Quiet, Balanced, starts,
}
use my_symphony.Go.Maps.{delete, get, has}
use my_symphony.Orchestrator.Claims.{schedule_retry-keys, retire-keys, ClaimAt}
use my_symphony.Orchestrator.Eligible.{is_eligible}
use my_symphony.Orchestrator.Claims.Handlers.{handle-ClaimAt, fired-FiredAt, find_by_id-eq}
use my_symphony.Orchestrator.Timers.{schedule_retry}
use my_symphony.Orchestrator.Update.{on_agent_update}
use my_symphony.Orchestrator.Snapshots.{notify}
use my_symphony.Orchestrator.Reconcile.{reconcile}

dispatch_all-Balanced :
    (id : Text) (env : Env) (issues : List Issue) (o : Orchestrator)
    → Balanced id o (dispatch_all env issues o)
unfolding dispatch_all
dispatch_all-Balanced id env [] o = refl
dispatch_all-Balanced id env (issue ∷ rest) o =
    if_elim (Balanced id o) (leb_ℤ (global_available o.state) (pos 0)) (λ _. refl)
      λ _. omega (
        arith,
        dispatch_one-Balanced id env issue o,
        dispatch_all-Balanced id env rest (dispatch_one env issue o),
      )

notify-Balanced :
    (id : Text) (env : Env) (o p : Orchestrator) → Balanced id o p → Balanced id o (notify env p)
notify-Balanced id env o p b = rw (notify-Quiet id env p, notify-state env p) b

poll_and_dispatch-Balanced :
    (id : Text) (env : Env) (o : Orchestrator) → Balanced id o (poll_and_dispatch env o)
unfolding poll_and_dispatch
poll_and_dispatch-Balanced id env o = elim (Option-cases (validate_dispatch o.cfg)) [
  | inr (_, e) ↦ rw (e, poll_and_dispatch) (notify-Balanced id env o o refl)
  | inl e ↦ elim (Result-cases env.fetch_candidate_issues) [
    | inr (_, f) ↦ rw (e, f, poll_and_dispatch) (notify-Balanced id env o o refl)
    | inl (issues, f) ↦
        rw (e, f, poll_and_dispatch)
          (notify-Balanced id env o (dispatch_all env (sort_for_dispatch issues) o)
            (dispatch_all-Balanced id env (sort_for_dispatch issues) o))
  ]
]

on_tick-Balanced : (id : Text) (env : Env) (o : Orchestrator) → Balanced id o (on_tick env o)
unfolding on_tick
on_tick-Balanced id env o =
    rw (schedule_tick-Quiet, schedule_tick-state)
      (ground (
        arith,
        poll_and_dispatch-Balanced id env (reconcile env o),
        reconcile-Quiet id env o,
        (reconcile-SameKeys env o).keys id,
      ))

-- A worker's end starts none, and its issue no longer runs.
abbrev Ended : Text → Text → Orchestrator → Orchestrator → Type 0
Ended k id o p = Quiet id o p × (has id p.running ≡ (not (text_eq k id) && has id o.running))

notify-Ended :
    (k id : Text) (env : Env) (o p : Orchestrator) → Ended k id o p → Ended k id o (notify env p)
notify-Ended k id env o p b = rw (notify-Quiet id env p, notify-state env p) b

reschedule-running :
    (env : Env) (k : Text) (reason : ExitReason) (error : Option Text) (entry : RunningEntry)
    (o : Orchestrator) (id : Text)
    → (reschedule env k reason error entry o).running ≡ o.running
unfolding reschedule
reschedule-running env k exit_normal error entry o id =
    (schedule_retry-keys env k _ _ _ _ true (set_completed k o) id).0
reschedule-running env k exit_abnormal error entry o id =
    (schedule_retry-keys env k _ _ _ _ false o id).0

on_worker_exit-Ended :
    (id : Text) (env : Env) (k : Text) (reason : ExitReason) (error : Option Text)
    (o : Orchestrator)
    → Ended k id o (on_worker_exit env k reason error o)
unfolding on_worker_exit
on_worker_exit-Ended id env k reason error o = elim (Option-cases (get k o.running)) [
  | inl e ↦ rw (e, on_worker_exit) (refl, ground (arith, text_eq_iff k id))
  | inr (entry, e) ↦
      let quiet = retire-Quiet id env k entry o in
      let keys = (retire-keys env k entry o id).0 in
      rw (e, on_worker_exit)
        (if_elim (Ended k id o) entry.release_on_exit (λ _. notify-Ended k id env o _ (quiet, keys))
          (λ _.
            notify-Ended k id env o (reschedule env k reason error entry (retire env k entry o)) (
              reschedule-Quiet id env k reason error entry (retire env k entry o) ∙ quiet,
              rw (reschedule-running env k reason error entry (retire env k entry o) id) keys,
            )))
]

schedule_retry-Balanced :
    (id : Text) (env : Env) (k : Text) (attempt : ℤ) (identifier : Text) (url error : Option Text)
    (continuation : Bool) (o : Orchestrator)
    → Balanced id o (schedule_retry env k attempt identifier url error continuation o)
schedule_retry-Balanced id env k attempt identifier url error continuation o =
    rw
      (
        schedule_retry-Quiet id env k attempt identifier url error continuation o,
        (schedule_retry-keys env k attempt identifier url error continuation o id).0,
      )
      refl

retry_among-Balanced :
    (id : Text) (env : Env) (k : Text) (entry : RetryEntry) (candidates : List Issue)
    (o : Orchestrator)
    → (text_eq k id ≡ true → has id o.running ≡ false)
    → Balanced id o (retry_among env k entry candidates o)
unfolding retry_among
retry_among-Balanced id env k entry candidates o idle =
    elim (Option-cases (find_by_id candidates k)) [
      | inl e ↦ rw (e, retry_among) (notify-Balanced id env o _ refl)
      | inr (issue, e) ↦
          rw (e, retry_among)
            (if_elim (Balanced id o) (not (is_eligible o.cfg issue))
              (λ _. notify-Balanced id env o _ refl)
              (λ _.
                if_elim (Balanced id o) (no_slot issue o)
                  (λ _. schedule_retry-Balanced id env k _ _ _ _ false o)
                  (λ _. notify-Balanced id env o _ (
                    dispatch_issue-Balanced id env issue _ o
                      (λ same. idle (rw (← find_by_id-eq candidates k issue e) same))))))
    ]

on_retry_timer-Balanced :
    (id : Text) (env : Env) (k : Text) (o : Orchestrator)
    → ClaimAt id o.state
    → Balanced id o (on_retry_timer env k o)
unfolding on_retry_timer
on_retry_timer-Balanced id env k o c = elim (Option-cases (get k o.retry_attempts)) [
  | inl e ↦ rw (e, on_retry_timer) refl
  | inr (entry, e) ↦
      let fired = set_retries (delete k o.retry_attempts) o in
      elim (Result-cases env.fetch_candidate_issues) [
        | inr (_, q) ↦
            rw (e, on_retry_timer, q) (schedule_retry-Balanced id env k _ _ _ _ false fired)
        | inl (candidates, q) ↦
            rw (e, on_retry_timer, q)
              (retry_among-Balanced id env k entry candidates fired
                (λ same. (((fired-FiredAt k id entry o e c).1) same).0))
      ]
]

on_agent_update-Balanced :
    (id k : Text) (m : AgentEvent) (o : Orchestrator) → Balanced id o (on_agent_update k m o)
unfolding on_agent_update
on_agent_update-Balanced id k m o = elim (Option-cases (get k o.running)) [
  | inl e ↦ rw (e, on_agent_update) refl
  | inr (entry, e) ↦ rw (e, on_agent_update, has-put_old k id _ entry o.running e) refl
]

on_reload-Balanced :
    (id : Text) (env : Env) (cfg : Config) (tmpl : Text) (o : Orchestrator)
    → Balanced id o (on_reload env cfg tmpl o)
unfolding on_reload
on_reload-Balanced id env cfg tmpl o = elim (Option-cases (env.new_tracker cfg)) [
  | inl e ↦ rw (e, on_reload, schedule_tick-state, schedule_tick-Quiet) refl
  | inr (_, e) ↦ rw (e, on_reload) refl
]

-- The worker ends that the loop takes notice of at an event: those of a running issue.
pub ends : Text → Event → Orchestrator → ℕ
ends id (worker_exit k reason error) o = bit (text_eq k id && has id o.running)
ends id _ o = 0

handle-starts :
    (id : Text) (env : Env) (e : Event) (o : Orchestrator)
    → ClaimAt id o.state
    → starts id (handle env e o).effects + bit (has id o.running)
      ≡ starts id o.effects + bit (has id (handle env e o).running) + ends id e o
unfolding handle ends effect starts
handle-starts id env tick_event o c = omega (arith, on_tick-Balanced id env o)
handle-starts id env (agent_update k msg) o c = omega (arith, on_agent_update-Balanced id k msg o)
handle-starts id env (worker_exit k reason error) o c =
    ground (arith, on_worker_exit-Ended id env k reason error o)
handle-starts id env (retry_timer_fired k) o c = omega (arith, on_retry_timer-Balanced id env k o c)
handle-starts id env (reload_config cfg tmpl) o c =
    omega (arith, on_reload-Balanced id env cfg tmpl o)
handle-starts id env refresh_request o c =
    rw (schedule_tick-Quiet, schedule_tick-state) (omega arith)
handle-starts id env snapshot_request o c = omega arith

-- The worker ends noticed over a sequence of events.
pub all_ends : Text → List (Env × Event) → Orchestrator → ℕ
all_ends id [] o = 0
all_ends id ((env, e) ∷ rest) o = ends id e o + all_ends id rest (handle env e o)

-- Over any events, the workers started for an issue are those whose end was noticed, and one more
-- exactly while the issue runs (counted from a state with exact claims). So an issue never has two
-- workers, and each worker's entry is removed once.
pub run-starts :
    (id : Text) (events : List (Env × Event)) (o : Orchestrator)
    → ClaimAt id o.state
    → starts id (run events o).effects + bit (has id o.running)
      ≡ starts id o.effects + bit (has id (run events o).running) + all_ends id events o
unfolding run all_ends
run-starts id [] o c = omega arith
run-starts id ((env, e) ∷ rest) o c = omega (
  arith,
  handle-starts id env e o c,
  run-starts id rest (handle env e o) (handle-ClaimAt env e o id c),
)
