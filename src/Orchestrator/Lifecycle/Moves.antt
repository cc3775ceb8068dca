-- ===== src/Orchestrator/Lifecycle/Moves.antt =====
-- How the handlers of internal/orchestrator move one issue.
use my_symphony.Orchestrator.Lifecycle.{unclaimed, running, retrying, status}
use my_symphony.Orchestrator.Claims.{
  ClaimAt, dispatch_issue-keys, dispatch_one-ClaimAt, schedule_retry-keys, retire-keys,
  SameKeys-ClaimAt,
}
use my_symphony.Orchestrator.Claims.Handlers.{find_by_id-eq}
use my_symphony.Orchestrator.Shape.{SameKeys, notify-state, schedule_tick-state, has-delete}
use my_symphony.Orchestrator.Reconcile.Keys.{reconcile-SameKeys}
use my_symphony.Go.Utf8.{ascii, Text, text_eq, text_eq_iff}
use my_symphony.Go.Maps.{has, get, delete}
use my_symphony.Base.{
  true, some, Result-cases, Option-cases, Option, not, none, inr, false, Bool-cases, ◌⊎◌, ◌≡◌, ◌∷◌,
  refl, pos, leb_ℤ, inl, if_elim, arith, [], List,
}
use my_symphony.Orchestrator.Env.{exit_normal, exit_abnormal, ExitReason, Env}
use my_symphony.Orchestrator.State.{
  set_retries, set_claimed, RunningEntry, running_count_by_state, global_available, Orchestrator,
}
use my_symphony.Orchestrator.Dispatch.{
  poll_and_dispatch, dispatch_issue, dispatch_one, dispatch_all,
}
use my_symphony.Domain.{RetryEntry, Issue}
use my_symphony.Orchestrator.Eligible.{is_eligible}
use my_symphony.Config.{validate_dispatch, per_state_limit}
use my_symphony.Orchestrator.Loop.{on_tick}
use my_symphony.Orchestrator.Retry.{
  retire, retry_among, release_claim, on_worker_exit, on_retry_timer, no_slot, find_by_id,
  reschedule, set_completed, exit_message,
}
use my_symphony.Orchestrator.Order.{sort_for_dispatch}
use my_symphony.Orchestrator.Reconcile.{reconcile}
use my_symphony.Go.Int64.{add64}

-- An issue stays where it is, or is dispatched unclaimed.
abbrev pub Dispatches : Text → Orchestrator → Orchestrator → Type 0
Dispatches id o p =
    (status id p.state ≡ status id o.state)
    ⊎ ((status id o.state ≡ unclaimed) × (status id p.state ≡ running))

pub SameKeys-status :
    (id : Text) (o p : Orchestrator) → SameKeys o p → status id p.state ≡ status id o.state
SameKeys-status id o p h = rw (h.keys id, h.retries) refl

dispatch_issue-Dispatches :
    (env : Env) (issue : Issue) (o : Orchestrator) (id : Text)
    → ClaimAt id o.state
    → has issue.id o.running ≡ false
    → has issue.id o.claimed ≡ false
    → Dispatches id o (dispatch_issue env issue none o)
dispatch_issue-Dispatches env issue o id c idle free =
    let keys = dispatch_issue-keys env issue none o id in
    elim (Bool-cases (text_eq issue.id id)) [
      | inl same ↦ inr (ground (arith, keys, text_eq_iff issue.id id), ground (arith, keys))
      | inr other ↦ inl (ground (arith, keys))
    ]

dispatch_one-Dispatches :
    (env : Env) (issue : Issue) (o : Orchestrator) (id : Text)
    → ClaimAt id o.state
    → Dispatches id o (dispatch_one env issue o)
unfolding dispatch_one
dispatch_one-Dispatches env issue o id c =
    if_elim (Dispatches id o) (has issue.id o.running) (λ _. inl refl)
      (λ idle.
        if_elim (Dispatches id o) (has issue.id o.claimed) (λ _. inl refl)
          (λ free.
            if_elim (Dispatches id o) (not (is_eligible o.cfg issue)) (λ _. inl refl)
              (λ _.
                if_elim (Dispatches id o)
                  (leb_ℤ (per_state_limit o.cfg issue.state)
                    (pos (running_count_by_state o.state issue.state)))
                  (λ _. inl refl) (λ _. dispatch_issue-Dispatches env issue o id c idle free))))

Dispatches-trans :
    (id : Text) (o p q : Orchestrator) → Dispatches id o p → Dispatches id p q → Dispatches id o q
Dispatches-trans id o p q h k = ground arith

dispatch_all-Dispatches :
    (env : Env) (issues : List Issue) (o : Orchestrator) (id : Text)
    → ClaimAt id o.state
    → Dispatches id o (dispatch_all env issues o)
unfolding dispatch_all
dispatch_all-Dispatches env [] o id c = inl refl
dispatch_all-Dispatches env (issue ∷ rest) o id c =
    if_elim (Dispatches id o) (leb_ℤ (global_available o.state) (pos 0)) (λ _. inl refl)
      (λ _.
        Dispatches-trans id o (dispatch_one env issue o)
          (dispatch_all env rest (dispatch_one env issue o))
          (dispatch_one-Dispatches env issue o id c)
          (dispatch_all-Dispatches env rest (dispatch_one env issue o) id
            (dispatch_one-ClaimAt env issue o id c)))

poll_and_dispatch-Dispatches :
    (env : Env) (o : Orchestrator) (id : Text)
    → ClaimAt id o.state
    → Dispatches id o (poll_and_dispatch env o)
unfolding poll_and_dispatch
poll_and_dispatch-Dispatches env o id c = elim (Option-cases (validate_dispatch o.cfg)) [
  | inr (_, e) ↦ rw (e, poll_and_dispatch, notify-state) (inl refl)
  | inl e ↦ elim (Result-cases env.fetch_candidate_issues) [
    | inr (_, f) ↦ rw (e, f, poll_and_dispatch, notify-state) (inl refl)
    | inl (issues, f) ↦
        rw (e, f, poll_and_dispatch, notify-state)
          (dispatch_all-Dispatches env (sort_for_dispatch issues) o id c)
  ]
]

pub on_tick-Dispatches :
    (env : Env) (o : Orchestrator) (id : Text)
    → ClaimAt id o.state
    → Dispatches id o (on_tick env o)
unfolding on_tick
on_tick-Dispatches env o id c =
    let same = reconcile-SameKeys env o in
    rw (schedule_tick-state, ← SameKeys-status id o (reconcile env o) same)
      (poll_and_dispatch-Dispatches env (reconcile env o) id
        (SameKeys-ClaimAt o (reconcile env o) id same c))

-- The end of a worker takes its issue out of the running ones, and leaves every other issue alone.
abbrev pub Ends : Text → Text → Orchestrator → Orchestrator → Type 0
Ends k id o p =
    (text_eq k id ≡ false → status id p.state ≡ status id o.state)
    × (text_eq k id ≡ true → (status id p.state ≡ unclaimed) ⊎ (status id p.state ≡ retrying))

reschedule-Ends :
    (env : Env) (k : Text) (reason : ExitReason) (er : Option Text) (entry : RunningEntry)
    (o : Orchestrator) (id : Text)
    → (text_eq k id ≡ true → has id o.running ≡ false)
    → Ends k id o (reschedule env k reason er entry o)
unfolding reschedule set_completed
reschedule-Ends env k exit_normal er entry o id gone = ground (
  arith,
  schedule_retry-keys env k (pos 1) entry.identifier entry.issue.url none true (set_completed k o)
      id,
)
reschedule-Ends env k exit_abnormal er entry o id gone = ground (
  arith,
  schedule_retry-keys env k (add64 entry.retry_attempt (pos 1)) entry.identifier entry.issue.url
      (some (exit_message er)) false o id,
)

pub on_worker_exit-Ends :
    (env : Env) (k : Text) (reason : ExitReason) (er : Option Text) (entry : RunningEntry)
    (o : Orchestrator) (id : Text)
    → ClaimAt id o.state
    → get k o.running ≡ some entry
    → Ends k id o (on_worker_exit env k reason er o)
unfolding on_worker_exit set_claimed
on_worker_exit-Ends env k reason er entry o id c e =
    let keys = retire-keys env k entry o id in
    let there : text_eq k id ≡ true → has id o.running ≡ true =
      (λ same. ground (arith, text_eq_iff k id)) in
    rw (e, on_worker_exit)
      (if_elim (Ends k id o) entry.release_on_exit (λ _. rw notify-state (ground (arith, keys)))
        (λ _. rw notify-state (
          ground (
            arith,
            keys,
            reschedule-Ends env k reason er entry (retire env k entry o) id
                (λ eq. ground (arith, keys)),
          ))))

-- A retry timer that fires moves its own issue alone.
abbrev pub Fires : Text → Text → Orchestrator → Orchestrator → Type 0
Fires k id o p = text_eq k id ≡ false → status id p.state ≡ status id o.state

retry_among-Fires :
    (env : Env) (k : Text) (entry : RetryEntry) (listed : List Issue) (o : Orchestrator) (id : Text)
    → Fires k id o (retry_among env k entry listed o)
unfolding retry_among release_claim set_claimed
retry_among-Fires env k entry listed o id = elim (Option-cases (find_by_id listed k)) [
  | inl e ↦ rw (e, retry_among) (λ _. rw notify-state refl)
  | inr (issue, e) ↦
      let same = find_by_id-eq listed k issue e in
      rw (e, retry_among)
        (if_elim (Fires k id o) (not (is_eligible o.cfg issue)) (λ _ _. rw notify-state refl)
          (λ _.
            if_elim (Fires k id o) (no_slot issue o)
              (λ _ other. ground (
                arith,
                schedule_retry-keys env k (add64 entry.attempt (pos 1)) issue.identifier issue.url
                    (some (ascii "no available orchestrator slots")) false o id,
              ))
              (λ _ other.
                rw notify-state
                  (ground (arith, same, dispatch_issue-keys env issue (some entry.attempt) o id)))))
]

pub on_retry_timer-Fires :
    (env : Env) (k : Text) (o : Orchestrator) (id : Text) → Fires k id o (on_retry_timer env k o)
unfolding on_retry_timer set_retries
on_retry_timer-Fires env k o id = elim (Option-cases (get k o.retry_attempts)) [
  | inl e ↦ rw (e, on_retry_timer) (λ _. refl)
  | inr (entry, e) ↦
      let gone = has-delete k id o.retry_attempts in
      elim (Result-cases env.fetch_candidate_issues) [
        | inr (_, q) ↦
            rw (e, on_retry_timer, q)
              (λ other. ground (
                arith,
                gone,
                schedule_retry-keys env k (add64 entry.attempt (pos 1)) entry.identifier entry.url
                    (some (ascii "retry poll failed")) false
                    (set_retries (delete k o.retry_attempts) o) id,
              ))
        | inl (listed, q) ↦
            rw (e, on_retry_timer, q)
              (λ other. ground (
                arith,
                gone,
                retry_among-Fires env k entry listed (set_retries (delete k o.retry_attempts) o) id,
              ))
      ]
]
