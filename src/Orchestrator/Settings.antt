-- ===== src/Orchestrator/Settings.antt =====
-- Only a reload changes the configuration of internal/orchestrator.
use my_symphony.Base.{
  ◌⊎◌, ◌≡◌, ◌∷◌, ◌∙◌, ℤ, true, some, refl, pos, not, inr, inl, if_elim, false, arith, [],
  Result-cases, Option-cases, Option, List, Bool, All,
}
use my_symphony.Orchestrator.Env.{
  worker_exit, tick_event, snapshot_request, retry_timer_fired, reload_config, refresh_request,
  exit_normal, exit_abnormal, agent_update, ExitReason, Event, Env, AgentEvent,
}
use my_symphony.Orchestrator.State.{effect, set_retries, set_claimed, RunningEntry, Orchestrator}
use my_symphony.Orchestrator.Progress.{dispatch_all-Grows}
use my_symphony.Orchestrator.Reconcile.Keys.{reconcile-SameKeys}
use my_symphony.Orchestrator.Loop.{run, handle, on_tick}
use my_symphony.Orchestrator.Retry.{
  retire, reschedule, set_completed, retry_issue, retry_among, release_claim, on_worker_exit,
  on_retry_timer, on_reload, no_slot, find_by_id,
}
use my_symphony.Domain.{RetryEntry, Issue}
use my_symphony.Orchestrator.Dispatch.{poll_and_dispatch, dispatch_issue}
use my_symphony.Orchestrator.Progress.Ticks.{schedule_tick-cfg, notify-cfg}
use my_symphony.Orchestrator.Timers.{schedule_retry, remove_retry_timer}
use my_symphony.Go.Utf8.{Text}
use my_symphony.Orchestrator.Order.{sort_for_dispatch}
use my_symphony.Orchestrator.Eligible.{is_eligible}
use my_symphony.Runner.{continuation}
use my_symphony.Orchestrator.Update.{on_agent_update}
use my_symphony.Config.{validate_dispatch, Config}
use my_symphony.Orchestrator.Reconcile.{reconcile}
use my_symphony.Go.Maps.{get}

schedule_retry-cfg :
    (env : Env) (k : Text) (attempt : ℤ) (identifier : Text) (url er : Option Text)
    (continuation : Bool) (o : Orchestrator)
    → (schedule_retry env k attempt identifier url er continuation o).cfg ≡ o.cfg
unfolding schedule_retry remove_retry_timer set_retries set_claimed effect
schedule_retry-cfg env k attempt identifier url er continuation o = ground arith

poll_and_dispatch-cfg : (env : Env) (o : Orchestrator) → (poll_and_dispatch env o).cfg ≡ o.cfg
unfolding poll_and_dispatch
poll_and_dispatch-cfg env o = elim (Option-cases (validate_dispatch o.cfg)) [
  | inr (_, e) ↦ rw (e, poll_and_dispatch) (notify-cfg env o)
  | inl e ↦ elim (Result-cases env.fetch_candidate_issues) [
    | inr (_, f) ↦ rw (e, f, poll_and_dispatch) (notify-cfg env o)
    | inl (issues, f) ↦
        rw (e, f, poll_and_dispatch)
          (notify-cfg env _ ∙ (dispatch_all-Grows env (sort_for_dispatch issues) o).config)
  ]
]

on_tick-cfg : (env : Env) (o : Orchestrator) → (on_tick env o).cfg ≡ o.cfg
unfolding on_tick
on_tick-cfg env o =
    schedule_tick-cfg _ (poll_and_dispatch env (reconcile env o))
    ∙ poll_and_dispatch-cfg env (reconcile env o)
    ∙ (reconcile-SameKeys env o).config

-- A result that keeps the configuration.
abbrev Keeps : Config → Orchestrator → Type 0
Keeps c p = p.cfg ≡ c

retire-cfg :
    (env : Env) (k : Text) (entry : RunningEntry) (o : Orchestrator)
    → (retire env k entry o).cfg ≡ o.cfg
unfolding retire
retire-cfg env k entry o = ground arith

reschedule-cfg :
    (env : Env) (k : Text) (reason : ExitReason) (er : Option Text) (entry : RunningEntry)
    (o : Orchestrator)
    → (reschedule env k reason er entry o).cfg ≡ o.cfg
unfolding reschedule set_completed
reschedule-cfg env k exit_normal er entry o =
    schedule_retry-cfg env k _ _ _ _ true (set_completed k o)
reschedule-cfg env k exit_abnormal er entry o = schedule_retry-cfg env k _ _ _ _ false o

dispatch_issue-cfg :
    (env : Env) (issue : Issue) (attempt : Option ℤ) (o : Orchestrator)
    → (dispatch_issue env issue attempt o).cfg ≡ o.cfg
unfolding dispatch_issue remove_retry_timer
dispatch_issue-cfg env issue attempt o = ground arith

on_worker_exit-cfg :
    (env : Env) (k : Text) (reason : ExitReason) (er : Option Text) (o : Orchestrator)
    → (on_worker_exit env k reason er o).cfg ≡ o.cfg
unfolding on_worker_exit set_claimed
on_worker_exit-cfg env k reason er o = elim (Option-cases (get k o.running)) [
  | inl e ↦ rw (e, on_worker_exit) refl
  | inr (entry, e) ↦
      let retired = retire env k entry o in
      rw (e, on_worker_exit)
        (if_elim (Keeps o.cfg) entry.release_on_exit
          (λ _. notify-cfg env _ ∙ retire-cfg env k entry o)
          (λ _.
            notify-cfg env _
            ∙ reschedule-cfg env k reason er entry retired
            ∙ retire-cfg env k entry o))
]

retry_among-cfg :
    (env : Env) (k : Text) (entry : RetryEntry) (listed : List Issue) (o : Orchestrator)
    → (retry_among env k entry listed o).cfg ≡ o.cfg
unfolding retry_among retry_issue release_claim set_claimed
retry_among-cfg env k entry listed o = elim (Option-cases (find_by_id listed k)) [
  | inl e ↦ rw (e, retry_among) (notify-cfg env _)
  | inr (issue, e) ↦
      rw (e, retry_among)
        (if_elim (Keeps o.cfg) (not (is_eligible o.cfg issue)) (λ _. notify-cfg env _)
          (λ _.
            if_elim (Keeps o.cfg) (no_slot issue o) (λ _. schedule_retry-cfg env k _ _ _ _ false o)
              (λ _. notify-cfg env _ ∙ dispatch_issue-cfg env issue (some entry.attempt) o)))
]

on_retry_timer-cfg :
    (env : Env) (k : Text) (o : Orchestrator) → (on_retry_timer env k o).cfg ≡ o.cfg
unfolding on_retry_timer set_retries
on_retry_timer-cfg env k o = elim (Option-cases (get k o.retry_attempts)) [
  | inl e ↦ rw (e, on_retry_timer) refl
  | inr (entry, e) ↦ elim (Result-cases env.fetch_candidate_issues) [
    | inr (_, q) ↦ rw (e, on_retry_timer, q) (schedule_retry-cfg env k _ _ _ _ false _)
    | inl (listed, q) ↦ rw (e, on_retry_timer, q) (retry_among-cfg env k entry listed _)
  ]
]

on_agent_update-cfg :
    (k : Text) (m : AgentEvent) (o : Orchestrator) → (on_agent_update k m o).cfg ≡ o.cfg
unfolding on_agent_update
on_agent_update-cfg k m o = elim (Option-cases (get k o.running)) [
  | inl e ↦ rw (e, on_agent_update) refl
  | inr (entry, e) ↦ rw (e, on_agent_update) refl
]

on_reload-cases :
    (env : Env) (cfg : Config) (tmpl : Text) (o : Orchestrator)
    → ((on_reload env cfg tmpl o).cfg ≡ o.cfg) ⊎ ((on_reload env cfg tmpl o).cfg ≡ cfg)
unfolding on_reload
on_reload-cases env cfg tmpl o = elim (Option-cases (env.new_tracker cfg)) [
  | inl e ↦ inr (rw (e, on_reload) (schedule_tick-cfg _ _))
  | inr (_, e) ↦ inl (rw (e, on_reload) refl)
]

-- What holds of the configuration at the start and of each configuration that a reload brings holds
-- of the configuration at every time.
module _ (P : Config → Type 0) where
  abbrev pub Brings : Event → Type 0
  Brings (reload_config c tmpl) = P c
  Brings _ = Unit {0}

  handle-keeps :
      (env : Env) (e : Event) (o : Orchestrator) → P o.cfg → Brings e → P (handle env e o).cfg
  unfolding handle effect
  handle-keeps env tick_event o h b = rw (on_tick-cfg env o) h
  handle-keeps env (agent_update k m) o h b = rw (on_agent_update-cfg k m o) h
  handle-keeps env (worker_exit k reason er) o h b = rw (on_worker_exit-cfg env k reason er o) h
  handle-keeps env (retry_timer_fired k) o h b = rw (on_retry_timer-cfg env k o) h
  handle-keeps env (reload_config c tmpl) o h b = elim (on_reload-cases env c tmpl o) [
    | inl same ↦ rw same h
    | inr new ↦ rw new b
  ]
  handle-keeps env refresh_request o h b = rw (schedule_tick-cfg (pos 0) o) h
  handle-keeps env snapshot_request o h b = h

  pub run-keeps :
      (events : List (Env × Event)) (o : Orchestrator)
      → P o.cfg
      → All (λ x. Brings x.1) events
      → P (run events o).cfg
  unfolding run
  run-keeps [] o h b = h
  run-keeps ((env, e) ∷ rest) o h b =
      run-keeps rest (handle env e o) (handle-keeps env e o h b.0) b.1
