-- ===== src/Orchestrator/Progress/Ticks.antt =====
-- A tick of internal/orchestrator leaves no candidate without a reason.
use my_symphony.Orchestrator.Progress.{
  Settled, runs, claims, refused, full, Grows, Grows-Settled, Served, dispatch_all-Served,
}
use my_symphony.Base.{
  Bool, ok, Bool-cases, ℤ, ◌⊎◌, ◌≡◌, ◌∷◌, true, pos, none, leb_ℤ, inr, inl, false, arith, [], List,
  All,
}
use my_symphony.Orchestrator.Env.{tick_event, Event, Env}
use my_symphony.Orchestrator.State.{running_count_by_state, global_available, Orchestrator}
use my_symphony.Config.{Config, validate_dispatch, per_state_limit}
use my_symphony.Go.Utf8.{Text}
use my_symphony.Go.Maps.{has}
use my_symphony.Domain.{Issue}
use my_symphony.Orchestrator.Dispatch.{poll_and_dispatch, dispatch_all}
use my_symphony.Orchestrator.Eligible.{is_eligible}
use my_symphony.Orchestrator.Claims.{on_tick-ClaimAt, ClaimAt}
use my_symphony.Orchestrator.Timers.{schedule_tick}
use my_symphony.Orchestrator.Order.{dispatch_less, sort_for_dispatch}
use my_symphony.Orchestrator.Lifecycle.{retrying, running, status}
use my_symphony.Orchestrator.Snapshots.{notify}
use my_symphony.Orchestrator.Boot.{claims_exact, IsBooted}
use my_symphony.Orchestrator.Loop.{run, handle, on_tick}
use my_symphony.Orchestrator.Shape.{schedule_tick-state, notify-state}
use my_symphony.Orchestrator.Reconcile.Keys.{reconcile-SameKeys}
use my_symphony.Go.Sort.{All-of_slice_stable}
use my_symphony.Orchestrator.Reconcile.{reconcile}

-- What a tick leaves a candidate with: a worker, a retry that waits, or a reason not to run it.
abbrev pub Answered : Orchestrator → Issue → Type 0
Answered o issue =
    (status issue.id o.state ≡ running)
    ⊎ ((status issue.id o.state ≡ retrying)
        ⊎ ((is_eligible o.cfg issue ≡ false)
            ⊎ (leb_ℤ (per_state_limit o.cfg issue.state)
                  (pos (running_count_by_state o.state issue.state))
                ≡ true)))

Settled-Answered :
    (o : Orchestrator) (issue : Issue)
    → ClaimAt issue.id o.state
    → Settled o issue
    → Answered o issue
Settled-Answered o issue c (runs h) = inl (ground arith)
Settled-Answered o issue c (claims h) = elim (Bool-cases (has issue.id o.running)) [
  | inl r ↦ inl (ground arith)
  | inr r ↦ inr (inl (ground arith))
]
Settled-Answered o issue c (refused h) = inr (inr (inl h))
Settled-Answered o issue c (full h) = inr (inr (inr h))

All-Answered :
    (o : Orchestrator) (issues : List Issue)
    → ((id : Text) → ClaimAt id o.state)
    → All (Settled o) issues
    → All (Answered o) issues
All-Answered o [] c h = tt
All-Answered o (issue ∷ rest) c h =
    (Settled-Answered o issue (c issue.id) h.0, All-Answered o rest c h.1)

-- A step that keeps the state and the configuration.
Same-Served :
    (issues : List Issue) (o p : Orchestrator)
    → p.state ≡ o.state
    → p.cfg ≡ o.cfg
    → Served issues o
    → Served issues p
Same-Served issues o p s c (inl used) = inl (rw s used)
Same-Served issues o p s c (inr h) = inr (All-Settled issues h)
  where
    grows : Grows o p
    grows = record {
      config = c;
      running = λ _ r. rw s r;
      claimed = λ _ r. rw s r;
      counts = λ _. rw s (omega arith);
    }

    All-Settled : (js : List Issue) → All (Settled o) js → All (Settled p) js
    All-Settled [] k = tt
    All-Settled (j ∷ js) k = (Grows-Settled o p j grows k.0, All-Settled js k.1)

pub notify-cfg : (env : Env) (o : Orchestrator) → (notify env o).cfg ≡ o.cfg
unfolding notify
notify-cfg env o = ground arith

pub schedule_tick-cfg : (d : ℤ) (o : Orchestrator) → (schedule_tick d o).cfg ≡ o.cfg
unfolding schedule_tick
schedule_tick-cfg d o = ground arith

poll_and_dispatch-Served :
    (env : Env) (issues : List Issue) (o : Orchestrator)
    → validate_dispatch o.cfg ≡ none
    → env.fetch_candidate_issues ≡ ok issues
    → Served (sort_for_dispatch issues) (poll_and_dispatch env o)
unfolding poll_and_dispatch
poll_and_dispatch-Served env issues o e f =
    let sorted = sort_for_dispatch issues in
    let o' = dispatch_all env sorted o in
    rw (e, f, poll_and_dispatch)
      (Same-Served sorted o' (notify env o') (notify-state env o') (notify-cfg env o')
        (dispatch_all-Served env sorted o))

on_tick-Served :
    (env : Env) (issues : List Issue) (o : Orchestrator)
    → validate_dispatch o.cfg ≡ none
    → env.fetch_candidate_issues ≡ ok issues
    → Served (sort_for_dispatch issues) (on_tick env o)
unfolding on_tick
on_tick-Served env issues o e f =
    let r = reconcile env o in
    let p = poll_and_dispatch env r in
    Same-Served (sort_for_dispatch issues) p (on_tick env o) (schedule_tick-state _ p)
      (schedule_tick-cfg _ p)
      (poll_and_dispatch-Served env issues r (rw ((reconcile-SameKeys env o).config) e) f)

-- From startup on, whatever has happened, a tick with a valid configuration whose fetch succeeds
-- uses the global slots up, or leaves every candidate with a worker, with a retry that waits, not
-- eligible, or in a state whose limit is reached: no candidate that may run is passed over.
pub handle-Answered :
    {env : Env} {cfg : Config} {template : Text} {observed : Bool} {p : Orchestrator}
    → IsBooted env cfg template observed p
    → (events : List (Env × Event)) (now : Env) (issues : List Issue)
    → validate_dispatch (run events p).cfg ≡ none
    → now.fetch_candidate_issues ≡ ok issues
    → let q = handle now tick_event (run events p) in
      (leb_ℤ (global_available q.state) (pos 0) ≡ true) ⊎ All (Answered q) issues
unfolding handle sort_for_dispatch
handle-Answered {p = p} boot events now issues valid fetched =
    let o = run events p in
    let exact : (id : Text) → ClaimAt id (on_tick now o).state =
      (λ id. on_tick-ClaimAt now o id (claims_exact boot events id)) in
    elim (on_tick-Served now issues o valid fetched) [
      | inl used ↦ inl used
      | inr settled ↦ inr (
          All-of_slice_stable dispatch_less (Answered (on_tick now o)) issues
            (All-Answered (on_tick now o) (sort_for_dispatch issues) exact settled))
    ]
