-- ===== src/Config/Build.antt =====
-- New of internal/config/config.go: a configuration from the front matter of the workflow file.
use my_symphony.Config.{
  Config, TrackerConfig, HooksConfig, AgentConfig, ClaudeConfig, ServerConfig, StateOverride,
  ConfigError, invalid_config_value, missing_prompt_file, norm_state,
}
use my_symphony.Config.Coerce.{
  sub_map, as_string, first_non_empty, as_string_list, default_string_list, as_int_strict,
  as_int_default, as_bool_default, normalize_state_map, resolve_env, expand_path, is_one_of,
}
use my_symphony.Go.Value.{Value, Fields, object, end, field, index, lookup}
use my_symphony.Go.Utf8.{Text, ascii, is_blank}
use my_symphony.Go.Strings.{trim_space, to_lower}
use my_symphony.Go.Maps.{Map, put}
use my_symphony.Go.Filepath.{join, is_abs, abs, clean}
use my_symphony.Go.Os.{Process}
use my_symphony.Base.{
  ◌∷◌, ◌||◌, ◌>>=◌, ℤ, true, some, pos, ok, none, ltb_ℤ, leb_ℤ, if◌then◌else◌, false, err, [],
  Result, Option, List,
}

abbrev pub default_active_states : List Text
default_active_states = ascii "Todo" ∷ ascii "In Progress" ∷ []

abbrev pub default_terminal_states : List Text
default_terminal_states =
    ascii "Closed" ∷ ascii "Cancelled" ∷ ascii "Canceled" ∷ ascii "Duplicate" ∷ ascii "Done" ∷ []

abbrev pub valid_effort_levels : List Text
valid_effort_levels = ascii "low" ∷ ascii "medium" ∷ ascii "high" ∷ ascii "xhigh" ∷ ascii "max" ∷ []

-- validateEffort.
unfoldable pub validate_effort : Text → Option ConfigError
validate_effort e =
    if is_blank e || is_one_of valid_effort_levels (to_lower e)
    then none
    else some (
        invalid_config_value
          (ascii "reasoning_effort must be one of low, medium, high, xhigh, max"))

-- A relative path below the workflow directory, or below the working directory without one.
unfoldable pub below_base : Process → Text → Text → Text
below_base os workflow_dir path =
    let wd : Text = elim os.getwd [ ok d ↦ d | err _ ↦ [] ] in
    if is_abs path then path else join (if is_blank workflow_dir then wd else workflow_dir) path

-- resolveWorkspaceRoot.
unfoldable pub resolve_workspace_root : Process → Text → Text → Text
resolve_workspace_root os workflow_dir root =
    let given =
      if is_blank (trim_space root)
      then join os.temp_dir (ascii "symphony_workspaces")
      else expand_path os root in
    let based = below_base os workflow_dir given in
    clean (elim (abs os.getwd based) [ ok a ↦ a | err _ ↦ based ])

-- readPromptFile.
unfoldable pub read_prompt_file : Process → Text → Text → Result ConfigError Text
read_prompt_file os workflow_dir p =
    elim (os.read_file (below_base os workflow_dir (expand_path os p))) [
      | err _ ↦ err (missing_prompt_file p)
      | ok data_read ↦ ok (trim_space data_read)
    ]

-- The prompt of an override: none without a path.
unfoldable pub override_prompt : Process → Text → Fields → Result ConfigError Text
override_prompt os workflow_dir sm =
    let p = trim_space (as_string (index (ascii "prompt") sm)) in
    if is_blank p then ok [] else read_prompt_file os workflow_dir p

-- The turns of an override: 0 where they are not a positive number.
unfoldable pub override_turns : Fields → ℤ
override_turns sm = elim (as_int_strict (index (ascii "max_turns") sm) (pos 0)) [
  | none ↦ pos 0
  | some n ↦ if leb_ℤ n (pos 0) then pos 0 else n
]

-- One entry of parseStateOverrides.
unfoldable pub parse_override : Process → Text → Fields → Result ConfigError StateOverride
parse_override os workflow_dir sm =
    let effort = trim_space (as_string (index (ascii "reasoning_effort") sm)) in
    elim (validate_effort effort) [
      | some e ↦ err e
      | none ↦ override_prompt os workflow_dir sm >>= λ body. ok record {
        model = trim_space (as_string (index (ascii "model") sm));
        reasoning_effort = effort;
        prompt_template = body;
        max_turns = override_turns sm;
      }
    ]

-- The loop of parseStateOverrides, in the order in which the fields are given.
unfoldable pub parse_overrides :
    Process → Text → Fields → Map StateOverride → Result ConfigError (Map StateOverride)
parse_overrides os workflow_dir end out = ok out
parse_overrides os workflow_dir (field k v fs) out = elim v [
  | object sm ↦ elim (parse_override os workflow_dir sm) [
    | err e ↦ err e
    | ok ov ↦ parse_overrides os workflow_dir fs (put (norm_state k) ov out)
  ]
  | _ ↦ parse_overrides os workflow_dir fs out
]

-- parseStateOverrides.
unfoldable pub parse_state_overrides :
    Process → Text → Value → Result ConfigError (Map StateOverride)
parse_state_overrides os workflow_dir v = elim v [
  | object fs ↦ parse_overrides os workflow_dir fs []
  | _ ↦ ok []
]

unfoldable pub tracker_config : Process → Fields → TrackerConfig
tracker_config os m = record {
  kind = trim_space (as_string (index (ascii "kind") m));
  endpoint =
      first_non_empty (as_string (index (ascii "endpoint") m))
        (ascii "https://api.linear.app/graphql");
  api_key = resolve_env os (as_string (index (ascii "api_key") m));
  project_slug = trim_space (as_string (index (ascii "project_slug") m));
  required_labels = as_string_list (index (ascii "required_labels") m);
  active_states =
      default_string_list (as_string_list (index (ascii "active_states") m)) default_active_states;
  terminal_states =
      default_string_list (as_string_list (index (ascii "terminal_states") m))
        default_terminal_states;
  assignee = trim_space (as_string (index (ascii "assignee") m));
}

unfoldable pub hooks_config : Fields → Result ConfigError HooksConfig
hooks_config m =
    let bad = invalid_config_value (ascii "hooks.timeout_ms must be a non-negative integer") in
    elim (as_int_strict (index (ascii "timeout_ms") m) (pos 60_000)) [
      | none ↦ err bad
      | some timeout_ms ↦
          if ltb_ℤ timeout_ms (pos 0)
          then err bad
          else ok record {
            after_create = as_string (index (ascii "after_create") m);
            before_run = as_string (index (ascii "before_run") m);
            after_run = as_string (index (ascii "after_run") m);
            before_remove = as_string (index (ascii "before_remove") m);
            timeout_ms = timeout_ms;
          }
    ]

unfoldable pub agent_config : Fields → Result ConfigError AgentConfig
agent_config m =
    let bad = invalid_config_value (ascii "agent.max_turns must be a positive integer") in
    elim (as_int_strict (index (ascii "max_turns") m) (pos 20)) [
      | none ↦ err bad
      | some max_turns ↦
          if leb_ℤ max_turns (pos 0)
          then err bad
          else ok record {
            max_concurrent = as_int_default (index (ascii "max_concurrent_agents") m) (pos 10);
            max_turns = max_turns;
            max_retry_backoff_ms =
                as_int_default (index (ascii "max_retry_backoff_ms") m) (pos 300_000);
            max_concurrent_by_state =
                normalize_state_map (index (ascii "max_concurrent_agents_by_state") m);
          }
    ]

unfoldable pub claude_config : Fields → Result ConfigError ClaudeConfig
claude_config m =
    let effort = trim_space (as_string (index (ascii "reasoning_effort") m)) in
    elim (validate_effort effort) [
      | some e ↦ err e
      | none ↦ ok record {
        command =
            first_non_empty (as_string (index (ascii "command") m))
              (ascii "claude -p --output-format stream-json --verbose");
        model = trim_space (as_string (index (ascii "model") m));
        reasoning_effort = effort;
        resume_across_turns = as_bool_default (index (ascii "resume_across_turns") m) true;
        turn_timeout_ms = as_int_default (index (ascii "turn_timeout_ms") m) (pos 3_600_000);
        read_timeout_ms = as_int_default (index (ascii "read_timeout_ms") m) (pos 5_000);
        stall_timeout_ms = as_int_default (index (ascii "stall_timeout_ms") m) (pos 300_000);
      }
    ]

unfoldable pub server_config : Fields → ServerConfig
server_config m = elim (lookup (ascii "port") m) [
  | none ↦ record { port = pos 0; port_set = false }
  | some v ↦ elim (as_int_strict v (pos 0)) [
    | none ↦ record { port = pos 0; port_set = false }
    | some p ↦ record { port = p; port_set = true }
  ]
]

-- New, on the front matter and the workflow directory. The sections are checked in this order.
unfoldable pub new_config : Process → Fields → Text → Result ConfigError Config
new_config os raw workflow_dir = hooks_config (sub_map raw (ascii "hooks")) >>= λ hooks.
    agent_config (sub_map raw (ascii "agent")) >>= λ agent.
    claude_config (sub_map raw (ascii "claude")) >>= λ claude.
    parse_state_overrides os workflow_dir (index (ascii "states") raw) >>= λ states. ok record {
      tracker = tracker_config os (sub_map raw (ascii "tracker"));
      polling = record {
        interval_ms =
            as_int_default (index (ascii "interval_ms") (sub_map raw (ascii "polling")))
              (pos 30_000);
      };
      workspace = record {
        root =
            resolve_workspace_root os workflow_dir
              (as_string (index (ascii "root") (sub_map raw (ascii "workspace"))));
      };
      hooks = hooks;
      agent = agent;
      claude = claude;
      server = server_config (sub_map raw (ascii "server"));
      states = states;
    }
