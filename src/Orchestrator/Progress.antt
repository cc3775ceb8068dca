-- ===== src/Orchestrator/Progress.antt =====
-- The dispatch loop of internal/orchestrator leaves no issue without a reason.
pub mod Ticks
use my_symphony.Base.{
  Bool, ok, Bool-cases, ℤ, ℕ, ◌⊎◌, ◌≤◌, ◌≡◌, ◌∷◌, ◌∙◌, true, refl, pos, not, none, leb_ℤ, inr, inl,
  if_elim, false, arith, [], List, All,
}
use my_symphony.Orchestrator.Env.{tick_event, Event, Env}
use my_symphony.Orchestrator.State.{
  running_count_by_state, global_available, count_state, RunningEntry, Orchestrator,
}
use my_symphony.Config.{Config, validate_dispatch, per_state_limit}
use my_symphony.Go.Utf8.{text_eq_refl, Text}
use my_symphony.Go.Maps.{put, has, get, Map}
use my_symphony.Domain.{normalize_state, Issue}
use my_symphony.Orchestrator.Dispatch.{
  poll_and_dispatch, new_entry, dispatch_one, dispatch_issue, dispatch_all,
}
use my_symphony.Orchestrator.Eligible.{is_eligible}
use my_symphony.Orchestrator.Claims.{on_tick-ClaimAt, ClaimAt, dispatch_issue-keys}
use my_symphony.Orchestrator.Timers.{schedule_tick, remove_retry_timer}
use my_symphony.Orchestrator.Order.{dispatch_less, sort_for_dispatch}
use my_symphony.Orchestrator.Lifecycle.{retrying, running, status}
use my_symphony.Orchestrator.Snapshots.{notify}
use my_symphony.Orchestrator.Boot.{claims_exact, IsBooted}
use my_symphony.Orchestrator.Loop.{run, handle, on_tick}
use my_symphony.Orchestrator.Shape.{schedule_tick-state, notify-state}
use my_symphony.Orchestrator.Reconcile.Keys.{reconcile-SameKeys}
use my_symphony.Go.Sort.{All-of_slice_stable}
use my_symphony.Orchestrator.Reconcile.{reconcile}

-- Why an issue needs no dispatch: it runs, it is claimed, it may not run, or its state is full.
pub data Settled (o : Orchestrator) (issue : Issue) : Type 0 where
  runs : has issue.id o.running ≡ true → Settled o issue
  claims : has issue.id o.claimed ≡ true → Settled o issue
  refused : is_eligible o.cfg issue ≡ false → Settled o issue
  full :
      leb_ℤ (per_state_limit o.cfg issue.state) (pos (running_count_by_state o.state issue.state))
        ≡ true
      → Settled o issue

-- What the loop of dispatches only adds to.
pub record Grows (o p : Orchestrator) : Type 0 where
  pub config : p.cfg ≡ o.cfg
  pub running : (id : Text) → has id o.running ≡ true → has id p.running ≡ true
  pub claimed : (id : Text) → has id o.claimed ≡ true → has id p.claimed ≡ true
  pub counts :
      (state : Text) → running_count_by_state o.state state ≤ running_count_by_state p.state state

Grows-refl : (o : Orchestrator) → Grows o o
Grows-refl o = record {
  config = refl;
  running = λ _ h. h;
  claimed = λ _ h. h;
  counts = λ _. omega arith;
}

Grows-trans : (o p q : Orchestrator) → Grows o p → Grows p q → Grows o q
Grows-trans o p q h k = record {
  config = k.config ∙ h.config;
  running = λ id r. k.running id (h.running id r);
  claimed = λ id r. k.claimed id (h.claimed id r);
  counts = λ s. omega (arith, h.counts s, k.counts s);
}

leb_mono : (z : ℤ) (n m : ℕ) → leb_ℤ z (pos n) ≡ true → n ≤ m → leb_ℤ z (pos m) ≡ true
leb_mono z n m h k = ground arith

pub Grows-Settled :
    (o p : Orchestrator) (issue : Issue) → Grows o p → Settled o issue → Settled p issue
Grows-Settled o p issue g (runs h) = runs (g.running issue.id h)
Grows-Settled o p issue g (claims h) = claims (g.claimed issue.id h)
Grows-Settled o p issue g (refused h) = refused (rw g.config h)
Grows-Settled o p issue g (full h) =
    full (rw g.config (leb_mono (per_state_limit o.cfg issue.state) _ _ h (g.counts issue.state)))

-- A new key adds at most to the count of a state.
count_state-put_new :
    (target k : Text) (e : RunningEntry) (m : Map RunningEntry)
    → has k m ≡ false
    → count_state target m ≤ count_state target (put k e m)
unfolding count_state get put
count_state-put_new target k e [] h = omega arith
count_state-put_new target k e ((j, w) ∷ m) h = ground (arith, count_state-put_new target k e m)

dispatch_issue-running :
    (env : Env) (issue : Issue) (o : Orchestrator)
    → ((dispatch_issue env issue none o).running
        ≡ put issue.id (new_entry env issue none) o.running)
      × ((dispatch_issue env issue none o).cfg ≡ o.cfg)
unfolding dispatch_issue remove_retry_timer
dispatch_issue-running env issue o = (ground arith, ground arith)

dispatch_issue-Grows :
    (env : Env) (issue : Issue) (o : Orchestrator)
    → has issue.id o.running ≡ false
    → Grows o (dispatch_issue env issue none o)
unfolding running_count_by_state
dispatch_issue-Grows env issue o h = record {
  config = (dispatch_issue-running env issue o).1;
  running = λ id r. ground (arith, dispatch_issue-keys env issue none o id);
  claimed = λ id r. ground (arith, dispatch_issue-keys env issue none o id);
  counts = λ s.
      rw ((dispatch_issue-running env issue o).0)
        (count_state-put_new (normalize_state s) issue.id _ o.running h);
}

dispatch_one-Grows :
    (env : Env) (issue : Issue) (o : Orchestrator) → Grows o (dispatch_one env issue o)
unfolding dispatch_one
dispatch_one-Grows env issue o =
    let grown = dispatch_issue-Grows env issue o in
    let same = Grows-refl o in
    if_elim (Grows o) (has issue.id o.running) (λ _. same)
      (λ idle.
        if_elim (Grows o) (has issue.id o.claimed) (λ _. same)
          (λ _.
            if_elim (Grows o) (not (is_eligible o.cfg issue)) (λ _. same)
              (λ _.
                if_elim (Grows o)
                  (leb_ℤ (per_state_limit o.cfg issue.state)
                    (pos (running_count_by_state o.state issue.state)))
                  (λ _. same) (λ _. grown idle))))

dispatch_one-Settled :
    (env : Env) (issue : Issue) (o : Orchestrator) → Settled (dispatch_one env issue o) issue
unfolding dispatch_one
dispatch_one-Settled env issue o =
    let P : Orchestrator → Type 0 = (λ p. Settled p issue) in
    if_elim P (has issue.id o.running) runs (λ _. if_elim P (has issue.id o.claimed) claims (λ _.
      if_elim P (not (is_eligible o.cfg issue)) (λ h. refused (ground arith))
        (λ _.
          if_elim P
            (leb_ℤ (per_state_limit o.cfg issue.state)
              (pos (running_count_by_state o.state issue.state)))
            full
            (λ _. runs (
              ground
                (arith, dispatch_issue-keys env issue none o issue.id, text_eq_refl issue.id))))))

pub dispatch_all-Grows :
    (env : Env) (issues : List Issue) (o : Orchestrator) → Grows o (dispatch_all env issues o)
unfolding dispatch_all
dispatch_all-Grows env [] o = Grows-refl o
dispatch_all-Grows env (issue ∷ rest) o =
    if_elim (Grows o) (leb_ℤ (global_available o.state) (pos 0)) (λ _. Grows-refl o)
      (λ _.
        Grows-trans o (dispatch_one env issue o) _ (dispatch_one-Grows env issue o)
          (dispatch_all-Grows env rest (dispatch_one env issue o)))

-- The slots are used up, or every issue of a list is settled.
abbrev pub Served : List Issue → Orchestrator → Type 0
Served issues o = (leb_ℤ (global_available o.state) (pos 0) ≡ true) ⊎ All (Settled o) issues

pub dispatch_all-Served :
    (env : Env) (issues : List Issue) (o : Orchestrator) → Served issues (dispatch_all env issues o)
unfolding dispatch_all
dispatch_all-Served env [] o = inr tt
dispatch_all-Served env (issue ∷ rest) o =
    if_elim (Served (issue ∷ rest)) (leb_ℤ (global_available o.state) (pos 0)) inl (λ _.
      let next = dispatch_one env issue o in
      elim (dispatch_all-Served env rest next) [
        | inl none_left ↦ inl none_left
        | inr settled ↦ inr (
          Grows-Settled next (dispatch_all env rest next) issue (dispatch_all-Grows env rest next)
              (dispatch_one-Settled env issue o),
          settled,
        )
      ])
