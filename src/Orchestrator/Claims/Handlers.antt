-- ===== src/Orchestrator/Claims/Handlers.antt =====
-- Every event of the loop keeps the claims exact.
use my_symphony.Orchestrator.State.{effect, set_retries, set_claimed, Orchestrator}
use my_symphony.Orchestrator.Claims.{
  schedule_retry-ClaimAt, on_worker_exit-ClaimAt, on_tick-ClaimAt, notify-ClaimAt,
  dispatch_issue-ClaimAt, Claimed, ClaimAt,
}
use my_symphony.Orchestrator.Env.{
  worker_exit, tick_event, snapshot_request, retry_timer_fired, reload_config, refresh_request,
  agent_update, Event, Env, AgentEvent,
}
use my_symphony.Orchestrator.Update.{on_agent_update}
use my_symphony.Base.{
  ◌≡◌, ◌∷◌, true, some, not, inr, inl, if_elim, false, arith, [], Result-cases, Option-cases, List,
}
use my_symphony.Domain.{RetryEntry, Issue}
use my_symphony.Go.Utf8.{text_eq_iff, text_eq, Text}
use my_symphony.Orchestrator.Retry.{
  retry_among, release_claim, on_retry_timer, on_reload, no_slot, find_by_id,
}
use my_symphony.Orchestrator.Eligible.{is_eligible}
use my_symphony.Config.{Config}
use my_symphony.Orchestrator.Shape.{schedule_tick-state, has-put_old, has-delete}
use my_symphony.Go.Maps.{delete, has, get}
use my_symphony.Orchestrator.Loop.{handle, run}

pub find_by_id-eq :
    (issues : List Issue) (id : Text) (i : Issue) → find_by_id issues id ≡ some i → i.id ≡ id
unfolding find_by_id
find_by_id-eq [] id i h = cc
find_by_id-eq (x ∷ rest) id i h = ground (arith, find_by_id-eq rest id i, text_eq_iff x.id id)

-- An id whose retry entry has just gone.
abbrev pub FiredAt : Text → Text → Orchestrator → Type 0
FiredAt k id o =
    (text_eq k id ≡ false → ClaimAt id o.state)
    × (text_eq k id ≡ true → (has id o.running ≡ false) × (has id o.retry_attempts ≡ false))

release_claim-ClaimAt :
    (env : Env) (k : Text) (o : Orchestrator) (id : Text)
    → FiredAt k id o
    → ClaimAt id (release_claim env k o).state
unfolding release_claim set_claimed
release_claim-ClaimAt env k o id f =
    notify-ClaimAt env _ id (ground (arith, has-delete k id o.claimed))

retry_among-ClaimAt :
    (env : Env) (k : Text) (entry : RetryEntry) (candidates : List Issue) (o : Orchestrator)
    (id : Text)
    → FiredAt k id o
    → ClaimAt id (retry_among env k entry candidates o).state
unfolding retry_among
retry_among-ClaimAt env k entry candidates o id f = elim (Option-cases (find_by_id candidates k)) [
  | inl e ↦ rw (e, retry_among) (release_claim-ClaimAt env k o id f)
  | inr (issue, e) ↦
      let same = find_by_id-eq candidates k issue e in
      rw (e, retry_among)
        (if_elim (Claimed id) (not (is_eligible o.cfg issue))
          (λ _. release_claim-ClaimAt env k o id f)
          (λ _.
            if_elim (Claimed id) (no_slot issue o)
              (λ _. schedule_retry-ClaimAt env k _ _ _ _ false o id f.0 (λ eq. (f.1 eq).0))
              (λ _.
                notify-ClaimAt env _ id
                  (dispatch_issue-ClaimAt env issue _ o id (λ ne. f.0 (rw (← same) ne))))))
]

pub fired-FiredAt :
    (k id : Text) (entry : RetryEntry) (o : Orchestrator)
    → get k o.retry_attempts ≡ some entry
    → ClaimAt id o.state
    → FiredAt k id (set_retries (delete k o.retry_attempts) o)
unfolding set_retries
fired-FiredAt k id entry o e c = ground (arith, has-delete k id o.retry_attempts, text_eq_iff k id)

on_retry_timer-ClaimAt :
    (env : Env) (k : Text) (o : Orchestrator) (id : Text)
    → ClaimAt id o.state
    → ClaimAt id (on_retry_timer env k o).state
unfolding on_retry_timer
on_retry_timer-ClaimAt env k o id c = elim (Option-cases (get k o.retry_attempts)) [
  | inl e ↦ rw (e, on_retry_timer) c
  | inr (entry, e) ↦
      let f = fired-FiredAt k id entry o e c in
      elim (Result-cases env.fetch_candidate_issues) [
        | inr (_, q) ↦
            rw (e, on_retry_timer, q)
              (schedule_retry-ClaimAt env k _ _ _ _ false _ id f.0 (λ eq. (f.1 eq).0))
        | inl (candidates, q) ↦
            rw (e, on_retry_timer, q) (retry_among-ClaimAt env k entry candidates _ id f)
      ]
]

on_agent_update-ClaimAt :
    (k : Text) (m : AgentEvent) (o : Orchestrator) (id : Text)
    → ClaimAt id o.state
    → ClaimAt id (on_agent_update k m o).state
unfolding on_agent_update
on_agent_update-ClaimAt k m o id c = elim (Option-cases (get k o.running)) [
  | inl e ↦ rw (e, on_agent_update) c
  | inr (entry, e) ↦ rw (e, on_agent_update, has-put_old k id _ entry o.running e) c
]

on_reload-ClaimAt :
    (env : Env) (cfg : Config) (tmpl : Text) (o : Orchestrator) (id : Text)
    → ClaimAt id o.state
    → ClaimAt id (on_reload env cfg tmpl o).state
unfolding on_reload
on_reload-ClaimAt env cfg tmpl o id c = elim (Option-cases (env.new_tracker cfg)) [
  | inl e ↦ rw (e, on_reload, schedule_tick-state) c
  | inr (_, e) ↦ rw (e, on_reload) c
]

pub handle-ClaimAt :
    (env : Env) (e : Event) (o : Orchestrator) (id : Text)
    → ClaimAt id o.state
    → ClaimAt id (handle env e o).state
unfolding handle effect
handle-ClaimAt env tick_event o id c = on_tick-ClaimAt env o id c
handle-ClaimAt env (agent_update k msg) o id c = on_agent_update-ClaimAt k msg o id c
handle-ClaimAt env (worker_exit k reason error) o id c =
    on_worker_exit-ClaimAt env k reason error o id c
handle-ClaimAt env (retry_timer_fired k) o id c = on_retry_timer-ClaimAt env k o id c
handle-ClaimAt env (reload_config cfg tmpl) o id c = on_reload-ClaimAt env cfg tmpl o id c
handle-ClaimAt env refresh_request o id c = rw schedule_tick-state c
handle-ClaimAt env snapshot_request o id c = c

pub run-ClaimAt :
    (events : List (Env × Event)) (o : Orchestrator) (id : Text)
    → ClaimAt id o.state
    → ClaimAt id (run events o).state
unfolding run
run-ClaimAt [] o id c = c
run-ClaimAt ((env, e) ∷ rest) o id c =
    run-ClaimAt rest (handle env e o) id (handle-ClaimAt env e o id c)
