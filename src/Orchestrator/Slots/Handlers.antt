-- ===== src/Orchestrator/Slots/Handlers.antt =====
-- Every event of the loop keeps within the global limit.
use my_symphony.Orchestrator.Slots.{
  schedule_tick-Within, schedule_retry-Shrinks, notify-Within, global_available_lem,
  dispatch_issue-Within, dispatch_all-Within, Within, Shrinks-Within, Shrinks, SameKeys-Within,
}
use my_symphony.Orchestrator.Env.{
  worker_exit, tick_event, snapshot_request, retry_timer_fired, reload_config, refresh_request,
  exit_normal, exit_abnormal, agent_update, ExitReason, Event, Env, AgentEvent,
}
use my_symphony.Orchestrator.Reconcile.Keys.{reconcile-SameKeys}
use my_symphony.Base.{
  ◌∷◌, ◌^◌, ◌<◌, ℕ, true, pos, not, none, inr, inl, if_elim, false, arith, [], Result-cases,
  Option-cases, Option, List, All,
}
use my_symphony.Orchestrator.State.{effect, set_retries, RunningEntry, Orchestrator}
use my_symphony.Orchestrator.Update.{on_agent_update}
use my_symphony.Go.Utf8.{Text}
use my_symphony.Domain.{RetryEntry, Issue}
use my_symphony.Orchestrator.Retry.{
  reschedule, retire, set_completed, retry_among, on_worker_exit, on_retry_timer, no_slot,
  find_by_id,
}
use my_symphony.Orchestrator.Order.{sort_for_dispatch}
use my_symphony.Orchestrator.Eligible.{is_eligible}
use my_symphony.Orchestrator.Dispatch.{poll_and_dispatch}
use my_symphony.Go.Maps.{delete, get, length-delete-le}
use my_symphony.Config.{validate_dispatch}
use my_symphony.Orchestrator.Shape.{length-put_old}
use my_symphony.Orchestrator.Loop.{handle, run, on_tick}
use my_symphony.Orchestrator.Reconcile.{reconcile}

poll_and_dispatch-Within :
    (n : ℕ) (env : Env) (o : Orchestrator)
    → n < 2 ^ 63
    → Within n o
    → Within n (poll_and_dispatch env o)
unfolding poll_and_dispatch
poll_and_dispatch-Within n env o b w = elim (Option-cases (validate_dispatch o.cfg)) [
  | inr (_, e) ↦ rw (e, poll_and_dispatch) (notify-Within n env o w)
  | inl e ↦ elim (Result-cases env.fetch_candidate_issues) [
    | inr (_, f) ↦ rw (e, f, poll_and_dispatch) (notify-Within n env o w)
    | inl (issues, f) ↦
        rw (e, f, poll_and_dispatch)
          (notify-Within n env _ (dispatch_all-Within n env (sort_for_dispatch issues) o b w))
  ]
]

retire-Shrinks :
    (env : Env) (k : Text) (entry : RunningEntry) (o : Orchestrator)
    → Shrinks o (retire env k entry o)
unfolding retire
retire-Shrinks env k entry o = record {
  limit = ground arith;
  size = ground (arith, length-delete-le k o.running);
}

reschedule-Shrinks :
    (env : Env) (k : Text) (reason : ExitReason) (error : Option Text) (entry : RunningEntry)
    (o : Orchestrator)
    → Shrinks o (reschedule env k reason error entry o)
unfolding reschedule
reschedule-Shrinks env k exit_normal error entry o =
    let s =
      schedule_retry-Shrinks env k (pos 1) entry.identifier entry.issue.url none true
        (set_completed k o) in
    record { limit = s.limit; size = s.size }
reschedule-Shrinks env k exit_abnormal error entry o = schedule_retry-Shrinks env k _ _ _ _ false o

on_worker_exit-Within :
    (n : ℕ) (env : Env) (k : Text) (reason : ExitReason) (error : Option Text) (o : Orchestrator)
    → Within n o
    → Within n (on_worker_exit env k reason error o)
unfolding on_worker_exit
on_worker_exit-Within n env k reason error o w = elim (Option-cases (get k o.running)) [
  | inl e ↦ rw (e, on_worker_exit) w
  | inr (entry, e) ↦
      let retired = Shrinks-Within n o (retire env k entry o) (retire-Shrinks env k entry o) w in
      rw (e, on_worker_exit)
        (if_elim (Within n) entry.release_on_exit
          (λ _. notify-Within n env _ (record { limit = retired.limit; size = retired.size }))
          (λ _. notify-Within n env _ (
            Shrinks-Within n (retire env k entry o) _
              (reschedule-Shrinks env k reason error entry (retire env k entry o)) retired)))
]

retry_among-Within :
    (n : ℕ) (env : Env) (k : Text) (entry : RetryEntry) (candidates : List Issue) (o : Orchestrator)
    → n < 2 ^ 63
    → Within n o
    → Within n (retry_among env k entry candidates o)
unfolding retry_among no_slot
retry_among-Within n env k entry candidates o b w = elim (Option-cases (find_by_id candidates k)) [
  | inl e ↦ rw (e, retry_among) (notify-Within n env _ (record { limit = w.limit; size = w.size }))
  | inr (issue, e) ↦
      rw (e, retry_among)
        (if_elim (Within n) (not (is_eligible o.cfg issue))
          (λ _. notify-Within n env _ (record { limit = w.limit; size = w.size }))
          (λ _.
            if_elim (Within n) (no_slot issue o)
              (λ _. Shrinks-Within n o _ (schedule_retry-Shrinks env k _ _ _ _ false o) w)
              (λ free. notify-Within n env _ (
                dispatch_issue-Within n env issue _ o w
                  (ground (arith, global_available_lem n o b w, free))))))
]

on_retry_timer-Within :
    (n : ℕ) (env : Env) (k : Text) (o : Orchestrator)
    → n < 2 ^ 63
    → Within n o
    → Within n (on_retry_timer env k o)
unfolding on_retry_timer
on_retry_timer-Within n env k o b w = elim (Option-cases (get k o.retry_attempts)) [
  | inl e ↦ rw (e, on_retry_timer) w
  | inr (entry, e) ↦
      let fired = set_retries (delete k o.retry_attempts) o in
      let wf : Within n fired = record { limit = w.limit; size = w.size } in
      elim (Result-cases env.fetch_candidate_issues) [
        | inr (_, q) ↦
            rw (e, on_retry_timer, q)
              (Shrinks-Within n fired _ (schedule_retry-Shrinks env k _ _ _ _ false fired) wf)
        | inl (candidates, q) ↦
            rw (e, on_retry_timer, q) (retry_among-Within n env k entry candidates fired b wf)
      ]
]

on_agent_update-Within :
    (n : ℕ) (k : Text) (m : AgentEvent) (o : Orchestrator)
    → Within n o
    → Within n (on_agent_update k m o)
unfolding on_agent_update
on_agent_update-Within n k m o w = elim (Option-cases (get k o.running)) [
  | inl e ↦ rw (e, on_agent_update) w
  | inr (entry, e) ↦
      rw (e, on_agent_update)
        (record { limit = w.limit; size = rw (length-put_old k _ entry o.running e) w.size })
]

-- An event that does not replace the configuration.
abbrev pub KeepsConfig : Event → Type 0
KeepsConfig (reload_config cfg tmpl) = ⊥
KeepsConfig _ = Unit {0}

handle-Within :
    (n : ℕ) (env : Env) (e : Event) (o : Orchestrator)
    → n < 2 ^ 63
    → KeepsConfig e
    → Within n o
    → Within n (handle env e o)
unfolding handle on_tick effect
handle-Within n env tick_event o b _ w = schedule_tick-Within n _ _ (
    poll_and_dispatch-Within n env (reconcile env o) b
      (SameKeys-Within n o (reconcile env o) (reconcile-SameKeys env o) w))
handle-Within n env (agent_update k msg) o b _ w = on_agent_update-Within n k msg o w
handle-Within n env (worker_exit k reason error) o b _ w =
    on_worker_exit-Within n env k reason error o w
handle-Within n env (retry_timer_fired k) o b _ w = on_retry_timer-Within n env k o b w
handle-Within n env (reload_config cfg tmpl) o b absurdity w = absurd absurdity
handle-Within n env refresh_request o b _ w = schedule_tick-Within n _ o w
handle-Within n env snapshot_request o b _ w = record { limit = w.limit; size = w.size }

-- While the configuration stays, no sequence of events makes more workers run than the global
-- limit allows: from any state within the limit `n`, every state that the loop reaches is within it.
pub run-Within :
    (n : ℕ) (events : List (Env × Event)) (o : Orchestrator)
    → n < 2 ^ 63
    → All (λ x. KeepsConfig x.1) events
    → Within n o
    → Within n (run events o)
unfolding run
run-Within n [] o b h w = w
run-Within n ((env, e) ∷ rest) o b h w =
    run-Within n rest (handle env e o) b h.1 (handle-Within n env e o b h.0 w)
