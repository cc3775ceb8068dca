-- ===== src/Witnesses/Configured.antt =====
-- The theorem on built configurations at a concrete front matter.
use my_symphony.Config.{Config, norm_state}
use my_symphony.Config.Build.{
  validate_effort, tracker_config, server_config, resolve_workspace_root, read_prompt_file,
  parse_state_overrides, parse_overrides, parse_override, override_turns, override_prompt,
  hooks_config, default_terminal_states, default_active_states, claude_config, below_base,
  agent_config, new_config,
}
use my_symphony.Config.Valid.{IsValid, new_config-IsValid}
use my_symphony.Go.Value.{lookup, index, Fields, str, int, object, end, field}
use my_symphony.Go.Utf8.{text_eq, is_blank, Text, ascii}
use my_symphony.Go.Os.{expand, Process}
use my_symphony.Witnesses.{no_hooks}
use my_symphony.Base.{◌≡◌, ◌∷◌, true, refl, false, [], some, pos, ok}
use my_symphony.Config.Coerce.{
  sub_map, resolve_env, normalize_state_map, is_one_of, is_env_name, first_non_empty, expand_path,
  default_string_list, as_string_list, as_string, as_int_strict, as_int_default, as_bool_default,
}
use my_symphony.Go.Strings.{trim_space, to_lower, has_prefix}
use my_symphony.Go.Filepath.{clean, abs, join, is_abs}
use my_symphony.Go.Strconv.{is_digit}
use my_symphony.Go.Maps.{put}

unfoldable pub process : Process
process = record {
  getenv = λ name. ascii "key";
  user_home_dir = some (ascii "/home/me");
  temp_dir = ascii "/tmp";
  getwd = ok (ascii "/srv");
  read_file = λ path. ok (ascii "Review.\n");
}

unfoldable pub text : Text → Text → Fields → Fields
text k v rest = field k (str v) rest

unfoldable pub front_matter : Fields
front_matter =
    field (ascii "tracker")
      (object (
        text (ascii "kind") (ascii "linear")
          (text (ascii "api_key") (ascii "$KEY") (text (ascii "project_slug") (ascii "slug") end))))
      (field (ascii "agent") (object (field (ascii "max_turns") (int (pos 3)) end)) (
        field (ascii "states")
          (object
            (field (ascii " Review ") (object (text (ascii "prompt") (ascii "r.md") end)) end))
          end))

unfoldable pub built : Config
built = record {
  tracker = record {
    kind = ascii "linear";
    endpoint = ascii "https://api.linear.app/graphql";
    api_key = ascii "key";
    project_slug = ascii "slug";
    required_labels = [];
    active_states = default_active_states;
    terminal_states = default_terminal_states;
    assignee = [];
  };
  polling = record { interval_ms = pos 30_000 };
  workspace = record { root = ascii "/tmp/symphony_workspaces" };
  hooks = no_hooks;
  agent = record {
    max_concurrent = pos 10;
    max_turns = pos 3;
    max_retry_backoff_ms = pos 300_000;
    max_concurrent_by_state = [];
  };
  claude = record {
    command = ascii "claude -p --output-format stream-json --verbose";
    model = [];
    reasoning_effort = [];
    resume_across_turns = true;
    turn_timeout_ms = pos 3_600_000;
    read_timeout_ms = pos 5_000;
    stall_timeout_ms = pos 300_000;
  };
  server = record { port = pos 0; port_set = false };
  states =
      (
        ascii "review",
        record {
          model = [];
          reasoning_effort = [];
          prompt_template = ascii "Review.";
          max_turns = pos 0;
        },
      )
      ∷ [];
}

pub srv_absolute : is_abs (ascii "/srv") ≡ true
unfolding is_abs
srv_absolute = refl

-- What building a configuration computes with.
unfoldable pub build_tools : Unit {0}
unfolding process text front_matter built new_config hooks_config agent_config claude_config
    tracker_config server_config parse_state_overrides parse_overrides parse_override
    override_prompt override_turns read_prompt_file below_base resolve_workspace_root
    validate_effort sub_map index lookup as_string first_non_empty as_string_list
    default_string_list as_int_strict as_int_default as_bool_default normalize_state_map resolve_env
    expand_path is_one_of trim_space to_lower is_blank is_env_name is_digit text_eq has_prefix
    expand norm_state put join is_abs abs clean
build_tools = tt

front_matter-built : new_config process front_matter (ascii "/repo") ≡ ok built
unfolding build_tools
front_matter-built = refl

new_config-IsValid_example : IsValid built
unfolding process
new_config-IsValid_example =
    new_config-IsValid process front_matter (ascii "/repo") (ascii "/srv") built refl srv_absolute
      front_matter-built
