-- ===== src/Orchestrator/Boot.antt =====
-- From New and the start of Run: what holds of every state of the loop.
use my_symphony.Go.Utf8.{Text}
use my_symphony.Orchestrator.Timers.{schedule_tick}
use my_symphony.Orchestrator.Loop.{run, start, new_orchestrator}
use my_symphony.Base.{
  ◌≤◌, ◌≡◌, ◌∷◌, ◌∙◌, ◌^◌, ◌<◌, ◌+◌, ℕ, refl, pos, ok, length, inr, inl, false, arith, [],
  Result-cases, Option-cases, List, Bool, All,
}
use my_symphony.Orchestrator.Claims.Handlers.{run-ClaimAt}
use my_symphony.Config.{validate_dispatch, Config}
use my_symphony.Orchestrator.Starts.{bit, starts, schedule_tick-Quiet, Quiet}
use my_symphony.Orchestrator.State.{effect, new_runtime_state, cleans_workspace, Orchestrator}
use my_symphony.Domain.{Issue}
use my_symphony.Orchestrator.Env.{Event, Env}
use my_symphony.Orchestrator.Reconcile.{startup_terminal_cleanup, cleanup_all}
use my_symphony.Orchestrator.Slots.Handlers.{run-Within, KeepsConfig}
use my_symphony.Orchestrator.Starts.Handlers.{run-starts, all_ends}
use my_symphony.Orchestrator.Claims.{ClaimAt}
use my_symphony.Orchestrator.Shape.{schedule_tick-state}
use my_symphony.Go.Maps.{has, get}

-- The state that New and the startup of Run leave.
pub record IsBooted (env : Env) (cfg : Config) (template : Text) (observed : Bool)
    (p : Orchestrator) : Type 0 where
  pub created : Orchestrator
  pub is_new : new_orchestrator env cfg template observed ≡ ok created
  pub is_started : start env created ≡ ok p

cleanup_all-state :
    (issues : List Issue) (o : Orchestrator) → (cleanup_all issues o).state ≡ o.state
unfolding cleanup_all
cleanup_all-state [] o = refl
cleanup_all-state (iss ∷ rest) o =
    cleanup_all-state rest (effect (cleans_workspace iss.identifier) o)

cleanup_all-Quiet :
    (id : Text) (issues : List Issue) (o : Orchestrator) → Quiet id o (cleanup_all issues o)
unfolding cleanup_all starts
cleanup_all-Quiet id [] o = refl
cleanup_all-Quiet id (iss ∷ rest) o =
    cleanup_all-Quiet id rest (effect (cleans_workspace iss.identifier) o)

-- A step that changes no state and starts no worker.
abbrev Idle : Text → Orchestrator → Orchestrator → Type 0
Idle id o p = (p.state ≡ o.state) × Quiet id o p

startup_terminal_cleanup-Idle :
    (id : Text) (env : Env) (o : Orchestrator) → Idle id o (startup_terminal_cleanup env o)
unfolding startup_terminal_cleanup
startup_terminal_cleanup-Idle id env o =
    elim (Result-cases (env.fetch_issues_by_states o.cfg.tracker.terminal_states)) [
      | inl (issues, e) ↦
          rw (e, startup_terminal_cleanup)
            (cleanup_all-state issues o, cleanup_all-Quiet id issues o)
      | inr (_, e) ↦ rw (e, startup_terminal_cleanup) (refl, refl)
    ]

start-Idle : (id : Text) (env : Env) (o p : Orchestrator) → start env o ≡ ok p → Idle id o p
unfolding start
start-Idle id env o p h = elim (Option-cases (validate_dispatch o.cfg)) [
  | inr (e, q) ↦ absurd (ground (arith, q))
  | inl q ↦
      let cleaned = startup_terminal_cleanup env o in
      let idle = startup_terminal_cleanup-Idle id env o in
      let same : schedule_tick (pos 0) cleaned ≡ p = ground (arith, q, h) in
      rw (← same) (
        schedule_tick-state (pos 0) cleaned ∙ idle.0,
        schedule_tick-Quiet id (pos 0) cleaned ∙ idle.1,
      )
]

new_orchestrator-empty :
    (id : Text) (env : Env) (cfg : Config) (template : Text) (observed : Bool) (o : Orchestrator)
    → new_orchestrator env cfg template observed ≡ ok o
    → (o.state ≡ new_runtime_state cfg.polling.interval_ms cfg.agent.max_concurrent)
      × (starts id o.effects ≡ 0)
unfolding new_orchestrator starts
new_orchestrator-empty id env cfg template observed o h =
    elim (Option-cases (env.new_tracker cfg)) [
      | inr (e, q) ↦ absurd (ground (arith, q))
      | inl q ↦ ground (arith, q, h)
    ]

module _ {env : Env} {cfg : Config} {template : Text} {observed : Bool} {p : Orchestrator}
    (boot : IsBooted env cfg template observed p) where
  pub booted-empty :
      (id : Text)
      → (p.state ≡ new_runtime_state cfg.polling.interval_ms cfg.agent.max_concurrent)
        × (starts id p.effects ≡ 0)
  booted-empty id =
      let idle = start-Idle id env boot.created p boot.is_started in
      let fresh = new_orchestrator-empty id env cfg template observed boot.created boot.is_new in
      (idle.0 ∙ fresh.0, idle.1 ∙ fresh.1)

  pub booted-ClaimAt : (id : Text) → ClaimAt id p.state
  unfolding new_runtime_state get
  booted-ClaimAt id = rw ((booted-empty id).0) (refl, refl)

  -- Whatever happens after startup, an issue is claimed exactly if a worker runs for it or a retry
  -- waits for it, and it never has both.
  pub claims_exact : (events : List (Env × Event)) (id : Text) → ClaimAt id (run events p).state
  claims_exact events id = run-ClaimAt events p id (booted-ClaimAt id)

  -- Whatever happens after startup, the workers started for an issue are those whose end was
  -- noticed, and one more exactly while the issue runs: an issue never has two workers, and each
  -- worker's end is taken notice of once.
  pub one_worker :
      (events : List (Env × Event)) (id : Text)
      → starts id (run events p).effects
        ≡ all_ends id events p + bit (has id (run events p).running)
  unfolding new_runtime_state get
  one_worker events id =
      let state = (booted-empty id).0 in
      let idle : has id p.running ≡ false = rw state refl in
      ground (arith, run-starts id events p (booted-ClaimAt id), (booted-empty id).1, idle)

  -- While the configuration is not reloaded, the workers never outnumber the global limit that the
  -- configuration sets.
  pub within_limit :
      (events : List (Env × Event)) (n : ℕ)
      → cfg.agent.max_concurrent ≡ pos n
      → n < 2 ^ 63
      → All (λ x. KeepsConfig x.1) events
      → length (run events p).running ≤ n
  unfolding new_runtime_state
  within_limit events n limit small keeps =
      let state = (booted-empty []).0 in
      (run-Within n events p small keeps
        (record { limit = rw state limit; size = rw state (omega arith) })).size
