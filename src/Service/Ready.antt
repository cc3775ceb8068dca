-- ===== src/Service/Ready.antt =====
-- A service of cmd/symphony that has started is booted, and its factories work.
use my_symphony.Service.{
  workflow_argument, serve_on, run_service, resolve_port, launch, workspace_factory,
  tracker_options, tracker_factory, runner_factory, cli_config_for, Service,
}
use my_symphony.Domain.{Issue}
use my_symphony.Go.Utf8.{is_blank, Text}
use my_symphony.Go.Filepath.{dir, abs, is_abs}
use my_symphony.Base.{
  ◌∷◌, ◌∙◌, [], Result-cases, List, Bool, All, subst, ◌≤ℤ◌, ◌≡◌, ◌<ℤ◌, ℤ, true, refl, pos, ok, none,
  inr, inl, false, arith, Option-cases, Option,
}
use my_symphony.Orchestrator.Boot.{IsBooted}
use my_symphony.Linear.Client.{new_client, TrackerError, Options, Client}
use my_symphony.Config.Lookups.{validate_dispatch_iff, max_turns-positive}
use my_symphony.Watcher.Posts.{IsUsable}
use my_symphony.Runner.{new_runner}
use my_symphony.Config.{validate_dispatch, Config}
use my_symphony.Orchestrator.Loop.{run, start, new_orchestrator}
use my_symphony.Go.Strings.{trim_space}
use my_symphony.Config.Valid.{new_config-IsValid, IsValid}
use my_symphony.Orchestrator.Env.{Event, Env}
use my_symphony.Orchestrator.State.{effect, cleans_workspace, Orchestrator}
use my_symphony.Watcher.{Sources}
use my_symphony.Orchestrator.Settings.{run-keeps, Brings}
use my_symphony.Orchestrator.Timers.{schedule_tick}
use my_symphony.Config.Build.{new_config}
use my_symphony.Orchestrator.Progress.Ticks.{schedule_tick-cfg}
use my_symphony.Orchestrator.Reconcile.{startup_terminal_cleanup, cleanup_all}
use my_symphony.Workflow.{load}

-- What the factories of a configuration make.
pub record IsReady (c : Config) : Type 0 where
  pub tracker : (message : TrackerError → Text) → tracker_factory message c ≡ none
  pub turns :
      (template : Text) (issue : Issue) → pos 0 <ℤ (runner_factory c template issue).max_turns
  pub root : is_abs (workspace_factory c).root ≡ true
  pub hooks : pos 0 ≤ℤ (workspace_factory c).hooks.timeout_ms
  pub command : (state : Text) → is_blank (trim_space (cli_config_for c state).command) ≡ false

new_client-keyed :
    (opts : Options)
    → is_blank opts.api_key ≡ false
    → is_blank opts.project_slug ≡ false
    → (client : Client) × (new_client opts ≡ ok client)
unfolding new_client
new_client-keyed opts key slug = rw (key, slug) (_, refl)

tracker_factory-keyed :
    (message : TrackerError → Text) (c : Config) → IsUsable c → tracker_factory message c ≡ none
unfolding tracker_factory tracker_options
tracker_factory-keyed message c u =
    let (client, e) =
      new_client-keyed (tracker_options c) u.dispatchable.api_key u.dispatchable.project_slug in
    rw (e, tracker_factory) refl

usable-IsReady : (c : Config) → IsUsable c → IsReady c
unfolding runner_factory new_runner workspace_factory cli_config_for
usable-IsReady c u = record {
  tracker = λ message. tracker_factory-keyed message c u;
  turns = λ template issue. ground (arith, max_turns-positive c issue.state u.valid.turns);
  root = u.valid.root;
  hooks = u.valid.timeout;
  command = λ state. u.valid.command;
}

-- What the startup of the service has seen to.
pub record IsServed (env : Env) (svc : Service) : Type 0 where
  pub booted : IsBooted env svc.config svc.template false svc.orchestrator
  pub usable : IsUsable svc.config
  pub runs : svc.orchestrator.cfg ≡ svc.config

cleanup_all-cfg : (issues : List Issue) (o : Orchestrator) → (cleanup_all issues o).cfg ≡ o.cfg
unfolding cleanup_all effect
cleanup_all-cfg [] o = refl
cleanup_all-cfg (iss ∷ rest) o = cleanup_all-cfg rest (effect (cleans_workspace iss.identifier) o)

startup_terminal_cleanup-cfg :
    (env : Env) (o : Orchestrator) → (startup_terminal_cleanup env o).cfg ≡ o.cfg
unfolding startup_terminal_cleanup
startup_terminal_cleanup-cfg env o =
    elim (Result-cases (env.fetch_issues_by_states o.cfg.tracker.terminal_states)) [
      | inl (issues, e) ↦ rw (e, startup_terminal_cleanup) (cleanup_all-cfg issues o)
      | inr (_, e) ↦ rw (e, startup_terminal_cleanup) refl
    ]

new_orchestrator-cfg :
    (env : Env) (cfg : Config) (template : Text) (observed : Bool) (o : Orchestrator)
    → new_orchestrator env cfg template observed ≡ ok o
    → o.cfg ≡ cfg
unfolding new_orchestrator
new_orchestrator-cfg env cfg template observed o h = elim (Option-cases (env.new_tracker cfg)) [
  | inr (e, q) ↦ absurd (ground (arith, q))
  | inl q ↦ ground (arith, q, h)
]

-- Run reaches its loop only past the preflight check, and keeps the configuration.
start-checked :
    (env : Env) (o p : Orchestrator)
    → start env o ≡ ok p
    → (validate_dispatch o.cfg ≡ none) × (p.cfg ≡ o.cfg)
unfolding start
start-checked env o p h = elim (Option-cases (validate_dispatch o.cfg)) [
  | inr (x, e) ↦ absurd (ground (arith, e))
  | inl e ↦
      let same : schedule_tick (pos 0) (startup_terminal_cleanup env o) ≡ p =
        ground (arith, e, h) in
      (
        e,
        rw (← same) (
            schedule_tick-cfg (pos 0) (startup_terminal_cleanup env o)
            ∙ startup_terminal_cleanup-cfg env o),
      )
]

launch-IsServed :
    (env : Env) (listen : ℤ → Option Text) (cli_port : ℤ) (path : Text) (cfg : Config)
    (template : Text) (created : Orchestrator) (svc : Service)
    → new_orchestrator env cfg template false ≡ ok created
    → IsValid cfg
    → launch env listen cli_port path cfg template created ≡ ok svc
    → IsServed env svc
unfolding launch
launch-IsServed env listen cli_port path cfg template created svc is_new valid h =
    elim (Option-cases (serve_on listen (resolve_port cli_port cfg))) [
      | inr (x, e) ↦ absurd (ground (arith, e))
      | inl e ↦ elim (Result-cases (start env created)) [
        | inr (x, f) ↦ absurd (ground (arith, e, f))
        | inl (p, f) ↦
            let same : record {
              workflow_path = path;
              config = cfg;
              template = template;
              port = resolve_port cli_port cfg;
              orchestrator = p;
            }
                ≡ svc =
              ground (arith, e, f, h) in
            let checked = start-checked env created p f in
            let named = new_orchestrator-cfg env cfg template false created is_new in
            subst (IsServed env) same (record {
              booted = record { created = created; is_new = is_new; is_started = f };
              usable = record {
                valid = valid;
                dispatchable = (validate_dispatch_iff cfg).0 (rw (← named) checked.0);
              };
              runs = checked.1 ∙ named;
            })
      ]
    ]

module _ (from : Sources) (wd : Text) (is_wd : from.process.getwd ≡ ok wd)
    (absolute : is_abs wd ≡ true) where
  run_service-IsServed :
      (env : Env) (listen : ℤ → Option Text) (cli_port : ℤ) (args : List Text) (svc : Service)
      → run_service from env listen cli_port args ≡ ok svc
      → IsServed env svc
  unfolding run_service
  run_service-IsServed env listen cli_port args svc h =
      elim (Result-cases (abs from.process.getwd (workflow_argument args))) [
        | inr (x, e) ↦ absurd (ground (arith, e))
        | inl (path, e) ↦ elim (Result-cases (load from.read_file from.decode_yaml path)) [
          | inr (x, f) ↦ absurd (ground (arith, e, f))
          | inl (def, f) ↦ elim (Result-cases (new_config from.process def.config (dir path))) [
            | inr (x, g) ↦ absurd (ground (arith, e, f, g))
            | inl (cfg, g) ↦
                elim (Result-cases (new_orchestrator env cfg def.prompt_template false)) [
                  | inr (x, k) ↦ absurd (ground (arith, e, f, g, k))
                  | inl (created, k) ↦
                      launch-IsServed env listen cli_port path cfg def.prompt_template created svc k
                        (new_config-IsValid from.process def.config (dir path) wd cfg is_wd absolute
                          g)
                        (ground (arith, e, f, g, k, h))
                ]
          ]
        ]
      ]

  -- A service that starts, from a process with an absolute working directory, is booted as the
  -- theorems on the loop ask, and at every time its configuration is one whose tracker, workspace
  -- manager, runner and agent the factories make with a key, an absolute root, a timeout that is not
  -- negative, a positive turn budget and a command, as long as reloads are of usable configurations,
  -- which are the only ones that the watcher posts.
  pub run_service-IsReady :
      (env : Env) (listen : ℤ → Option Text) (cli_port : ℤ) (args : List Text) (svc : Service)
      (events : List (Env × Event))
      → run_service from env listen cli_port args ≡ ok svc
      → All (λ x. Brings IsUsable x.1) events
      → IsBooted env svc.config svc.template false svc.orchestrator
        × IsReady (run events svc.orchestrator).cfg
  run_service-IsReady env listen cli_port args svc events h brings =
      let served = run_service-IsServed env listen cli_port args svc h in
      let at_start : IsUsable svc.orchestrator.cfg = rw served.runs served.usable in
      (
        served.booted,
        usable-IsReady (run events svc.orchestrator).cfg
            (run-keeps IsUsable events svc.orchestrator at_start brings),
      )
