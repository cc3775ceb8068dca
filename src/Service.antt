-- ===== src/Service.antt =====
-- cmd/symphony/main.go: the factories and the startup of the service.
pub mod Ready
use my_symphony.Go.Utf8.{Text, ascii}
use my_symphony.Base.{
  ◌∷◌, ℤ, some, pos, ok, none, leb_ℤ, if◌then◌else◌, false, err, [], Result, Option, List,
}
use my_symphony.Linear.Client.{new_client, TrackerError, Options}
use my_symphony.Workspace.{Manager}
use my_symphony.Config.{
  reasoning_effort_for_state, prompt_for_state, model_for_state, max_turns_for_state,
  has_prompt_override, ConfigError, Config,
}
use my_symphony.Orchestrator.Loop.{start, new_orchestrator}
use my_symphony.Claude.Command.{CliConfig}
use my_symphony.Watcher.{Sources}
use my_symphony.Workflow.{load, WorkflowError}
use my_symphony.Orchestrator.State.{Orchestrator}
use my_symphony.Runner.{new_runner, Runner}
use my_symphony.Domain.{Issue}
use my_symphony.Orchestrator.Env.{Env}
use my_symphony.Config.Build.{new_config}
use my_symphony.Go.Filepath.{dir, abs}

-- The tracker options of buildFactories; a page size that is not given is 0.
unfoldable pub tracker_options : Config → Options
tracker_options cfg = record {
  endpoint = cfg.tracker.endpoint;
  api_key = cfg.tracker.api_key;
  project_slug = cfg.tracker.project_slug;
  active_states = cfg.tracker.active_states;
  page_size = pos 0;
}

-- The workspace manager of buildFactories.
unfoldable pub workspace_factory : Config → Manager
workspace_factory cfg = record {
  root = cfg.workspace.root;
  hooks = record {
    after_create = cfg.hooks.after_create;
    before_run = cfg.hooks.before_run;
    after_run = cfg.hooks.after_run;
    before_remove = cfg.hooks.before_remove;
    timeout_ms = cfg.hooks.timeout_ms;
  };
}

-- The settings of the agent's client for an issue in a state.
unfoldable pub cli_config_for : Config → Text → CliConfig
unfolding model_for_state reasoning_effort_for_state
cli_config_for cfg state = record {
  command = cfg.claude.command;
  model = model_for_state cfg state;
  reasoning_effort = reasoning_effort_for_state cfg state;
  resume_across_turns = cfg.claude.resume_across_turns;
  turn_timeout_ms = cfg.claude.turn_timeout_ms;
  read_timeout_ms = cfg.claude.read_timeout_ms;
}

-- The runner of buildFactories for an issue.
unfoldable pub runner_factory : Config → Text → Issue → Runner
unfolding new_runner prompt_for_state has_prompt_override max_turns_for_state
runner_factory cfg template issue = new_runner (record {
  template = prompt_for_state cfg issue.state template;
  prompt_override = has_prompt_override cfg issue.state;
  active_states = cfg.tracker.active_states;
  max_turns = max_turns_for_state cfg issue.state;
})

-- The tracker factory as the handlers see it: the text of its error, if there is one.
unfoldable pub tracker_factory : (TrackerError → Text) → Config → Option Text
unfolding tracker_options new_client
tracker_factory message cfg = elim (new_client (tracker_options cfg)) [
  | err e ↦ some (message e)
  | ok client ↦ none
]

-- resolvePort.
unfoldable pub resolve_port : ℤ → Config → Option ℤ
resolve_port cli_port cfg =
    if leb_ℤ (pos 0) cli_port
    then some cli_port
    else if cfg.server.port_set
    then some cfg.server.port
    else none

-- Why run returns 1.
pub data Failure : Type 0 where
  path_failed : Text → Failure
  load_failed : WorkflowError → Failure
  config_failed : ConfigError → Failure
  init_failed : Text → Failure
  listen_failed : Text → Failure
  run_failed : ConfigError → Failure

pub record Service : Type 0 where
  pub workflow_path : Text
  pub config : Config
  pub template : Text
  pub port : Option ℤ
  pub orchestrator : Orchestrator

-- The path of the workflow file: the first argument, or WORKFLOW.md.
unfoldable pub workflow_argument : List Text → Text
workflow_argument [] = ascii "WORKFLOW.md"
workflow_argument (a ∷ rest) = a

-- The answer of the listener, where a server is enabled.
unfoldable pub serve_on : (ℤ → Option Text) → Option ℤ → Option Text
serve_on listen none = none
serve_on listen (some port) = listen port

-- The last part of run: the server, and Run up to its loop.
unfoldable pub launch :
    Env → (ℤ → Option Text) → ℤ → Text → Config → Text → Orchestrator → Result Failure Service
unfolding resolve_port serve_on
launch env listen cli_port path cfg template created =
    elim (serve_on listen (resolve_port cli_port cfg)) [
      | some e ↦ err (listen_failed e)
      | none ↦ elim (start env created) [
        | err e ↦ err (run_failed e)
        | ok started ↦ ok (record {
          workflow_path = path;
          config = cfg;
          template = template;
          port = resolve_port cli_port cfg;
          orchestrator = started;
        })
      ]
    ]

-- run, up to the loop of the orchestrator.
unfoldable pub run_service :
    Sources → Env → (ℤ → Option Text) → ℤ → List Text → Result Failure Service
unfolding launch workflow_argument
run_service from env listen cli_port args = elim (abs from.process.getwd (workflow_argument args)) [
  | err e ↦ err (path_failed e)
  | ok path ↦ elim (load from.read_file from.decode_yaml path) [
    | err e ↦ err (load_failed e)
    | ok def ↦ elim (new_config from.process def.config (dir path)) [
      | err e ↦ err (config_failed e)
      | ok cfg ↦ elim (new_orchestrator env cfg def.prompt_template false) [
        | err e ↦ err (init_failed e)
        | ok created ↦ launch env listen cli_port path cfg def.prompt_template created
      ]
    ]
  ]
]
