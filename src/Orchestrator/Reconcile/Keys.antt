-- ===== src/Orchestrator/Reconcile/Keys.antt =====
-- Reconciliation ends no worker and starts none: it only marks entries and asks workers to stop.
use my_symphony.Base.{
  false, [], arith, ◌∙◌, inr, some, inl, Result-cases, pos, true, ◌≡◌, ltb_ℤ, ◌∷◌, Option-cases,
  All, Bool-cases, ℤ, Bool, List, ℕ,
}
use my_symphony.Orchestrator.State.{set_running, cancels, effect, RunningEntry, Orchestrator}
use my_symphony.Go.Utf8.{Text}
use my_symphony.Orchestrator.Reconcile.{
  is_stalled, live_ids, detect_stalls, reconcile, refresh_all, stall_loop, refresh_one,
  refresh_states, terminate_running,
}
use my_symphony.Go.Maps.{put, get, has, Map}
use my_symphony.Orchestrator.Env.{Env}
use my_symphony.Domain.{Issue}
use my_symphony.Orchestrator.Shape.{
  SameKeys-put, SameKeys-effect, All-has, SameKeys-refl, SameKeys-trans, SameKeys,
}
use my_symphony.Orchestrator.Eligible.{is_active_state, is_terminal_state}

All-keys :
    (o p : Orchestrator) (m : Map RunningEntry)
    → SameKeys o p
    → All (λ x. has x.0 o.running ≡ true) m
    → All (λ x. has x.0 p.running ≡ true) m
All-keys o p [] h a = tt
All-keys o p (x ∷ m) h a = (h.keys x.0 ∙ a.0, All-keys o p m h a.1)

has-get :
    (id : Text) (m : Map RunningEntry) → has id m ≡ true → (e : RunningEntry) × (get id m ≡ some e)
has-get id m h = elim (Option-cases (get id m)) [
  | inl none_there ↦ absurd (ground arith)
  | inr found ↦ found
]

stall_loop-SameKeys :
    (stall : ℤ) (now : ℕ) (m : Map RunningEntry) (o : Orchestrator)
    → All (λ x. has x.0 o.running ≡ true) m
    → SameKeys o (stall_loop stall now m o)
unfolding stall_loop
stall_loop-SameKeys stall now [] o a = SameKeys-refl o
stall_loop-SameKeys stall now ((id, e) ∷ rest) o a = elim (Bool-cases (is_stalled stall now e)) [
  | inr calm ↦ rw calm (stall_loop-SameKeys stall now rest o a.1)
  | inl stalled ↦
      let (old, there) = has-get id o.running a.0 in
      let marked =
        effect (cancels id) (set_running (put id (record e { terminating = true }) o.running) o) in
      let step =
        SameKeys-effect (cancels id) o _
          (SameKeys-put id old (record e { terminating = true }) o there) in
      rw stalled (
        SameKeys-trans o marked (stall_loop stall now rest marked) step
          (stall_loop-SameKeys stall now rest marked (All-keys o marked rest step a.1)))
]

pub detect_stalls-SameKeys : (env : Env) (o : Orchestrator) → SameKeys o (detect_stalls env o)
unfolding detect_stalls
detect_stalls-SameKeys env o = elim (Bool-cases (ltb_ℤ (pos 0) o.cfg.claude.stall_timeout_ms)) [
  | inl e ↦ rw e (stall_loop-SameKeys _ _ o.running o (All-has o.running))
  | inr e ↦ rw e (SameKeys-refl o)
]

pub terminate_running-SameKeys :
    (id : Text) (cleanup release : Bool) (o : Orchestrator)
    → SameKeys o (terminate_running id cleanup release o)
unfolding terminate_running
terminate_running-SameKeys id cleanup release o = elim (Option-cases (get id o.running)) [
  | inl e ↦ rw (e, terminate_running) (SameKeys-refl o)
  | inr (entry, e) ↦ elim (Bool-cases entry.terminating) [
    | inl t ↦ rw (e, terminate_running, t) (SameKeys-refl o)
    | inr t ↦ rw (e, terminate_running, t) (SameKeys-effect _ o _ (SameKeys-put id entry _ o e))
  ]
]

pub refresh_one-SameKeys : (issue : Issue) (o : Orchestrator) → SameKeys o (refresh_one issue o)
unfolding refresh_one
refresh_one-SameKeys issue o = elim (Option-cases (get issue.id o.running)) [
  | inl e ↦ rw (e, refresh_one) (SameKeys-refl o)
  | inr (entry, e) ↦ elim (Bool-cases entry.terminating) [
    | inl t ↦ rw (e, refresh_one, t) (SameKeys-refl o)
    | inr t ↦ elim (Bool-cases (is_terminal_state o.cfg issue.state)) [
      | inl d ↦ rw (e, refresh_one, t, d) (terminate_running-SameKeys issue.id true true o)
      | inr d ↦ elim (Bool-cases (is_active_state o.cfg issue.state)) [
        | inl a ↦ rw (e, refresh_one, t, d, a) (SameKeys-put issue.id entry _ o e)
        | inr a ↦ rw (e, refresh_one, t, d, a) (terminate_running-SameKeys issue.id false true o)
      ]
    ]
  ]
]

refresh_all-SameKeys : (issues : List Issue) (o : Orchestrator) → SameKeys o (refresh_all issues o)
unfolding refresh_all
refresh_all-SameKeys [] o = SameKeys-refl o
refresh_all-SameKeys (issue ∷ rest) o =
    SameKeys-trans o (refresh_one issue o) _ (refresh_one-SameKeys issue o)
      (refresh_all-SameKeys rest (refresh_one issue o))

refresh_states-SameKeys :
    (env : Env) (ids : List Text) (o : Orchestrator) → SameKeys o (refresh_states env ids o)
unfolding refresh_states
refresh_states-SameKeys env [] o = SameKeys-refl o
refresh_states-SameKeys env (id ∷ ids) o =
    elim (Result-cases (env.fetch_issue_states_by_ids (id ∷ ids))) [
      | inl (refreshed, e) ↦ rw (e, refresh_states) (refresh_all-SameKeys refreshed o)
      | inr (_, e) ↦ rw (e, refresh_states) (SameKeys-refl o)
    ]

-- Whatever the tracker answers, reconciliation keeps the running issues, their number, the claims
-- and the retries: a worker is only asked to stop, and its entry goes when it has ended.
pub reconcile-SameKeys : (env : Env) (o : Orchestrator) → SameKeys o (reconcile env o)
unfolding reconcile
reconcile-SameKeys env o =
    SameKeys-trans o (detect_stalls env o) _ (detect_stalls-SameKeys env o)
      (refresh_states-SameKeys env (live_ids (detect_stalls env o).running) (detect_stalls env o))
