-- ===== src/Config.antt =====
-- internal/config/config.go: the typed configuration, and what is looked up in it.
-- The workflow directory is not a field: it is used only while a configuration is built.
pub mod Lookups
pub mod Coerce
pub mod Build
pub mod Sections
pub mod Valid
use my_symphony.Base.{ℕ, Bool, List, Option, none, some, ℤ, ◌&&◌, not, ltb_ℤ, pos, if◌then◌else◌}
use my_symphony.Go.Utf8.{Text, ascii, text_eq, is_blank}
use my_symphony.Go.Strings.{to_lower, trim_space}
use my_symphony.Go.Maps.{Map, get}

pub record TrackerConfig : Type 0 where
  pub kind : Text
  pub endpoint : Text
  pub api_key : Text
  pub project_slug : Text
  pub required_labels : List Text
  pub active_states : List Text
  pub terminal_states : List Text
  pub assignee : Text

pub record PollingConfig : Type 0 where
  pub interval_ms : ℤ

pub record WorkspaceConfig : Type 0 where
  pub root : Text

pub record HooksConfig : Type 0 where
  pub after_create : Text
  pub before_run : Text
  pub after_run : Text
  pub before_remove : Text
  pub timeout_ms : ℤ

pub record AgentConfig : Type 0 where
  pub max_concurrent : ℤ
  pub max_turns : ℤ
  pub max_retry_backoff_ms : ℤ
  pub max_concurrent_by_state : Map ℤ

pub record ClaudeConfig : Type 0 where
  pub command : Text
  pub model : Text
  pub reasoning_effort : Text
  pub resume_across_turns : Bool
  pub turn_timeout_ms : ℤ
  pub read_timeout_ms : ℤ
  pub stall_timeout_ms : ℤ

pub record StateOverride : Type 0 where
  pub model : Text
  pub reasoning_effort : Text
  pub prompt_template : Text
  pub max_turns : ℤ

pub record ServerConfig : Type 0 where
  pub port : ℤ
  pub port_set : Bool

pub record Config : Type 0 where
  pub tracker : TrackerConfig
  pub polling : PollingConfig
  pub workspace : WorkspaceConfig
  pub hooks : HooksConfig
  pub agent : AgentConfig
  pub claude : ClaudeConfig
  pub server : ServerConfig
  pub states : Map StateOverride

-- The error codes that this package returns; a message that carries a value keeps it.
pub data ConfigError : Type 0 where
  tracker_kind_required : ConfigError
  unsupported_tracker_kind : Text → ConfigError
  missing_tracker_api_key missing_tracker_project_slug missing_claude_command : ConfigError
  invalid_config_value : Text → ConfigError
  missing_prompt_file : Text → ConfigError

-- ValidateDispatch; `none` is a nil error.
unfoldable pub validate_dispatch : Config → Option ConfigError
validate_dispatch c =
    if is_blank c.tracker.kind
    then some tracker_kind_required
    else if not (text_eq c.tracker.kind (ascii "linear"))
    then some (unsupported_tracker_kind c.tracker.kind)
    else if is_blank c.tracker.api_key
    then some missing_tracker_api_key
    else if is_blank c.tracker.project_slug
    then some missing_tracker_project_slug
    else if is_blank (trim_space c.claude.command)
    then some missing_claude_command
    else none

-- normState.
unfoldable pub norm_state : Text → Text
norm_state state = to_lower (trim_space state)

or_else {ℓ} : {A : Type ℓ} → Option A → A → A
or_else none d = d
or_else (some a) d = a

-- PerStateLimit.
unfoldable pub per_state_limit : Config → Text → ℤ
unfolding or_else
per_state_limit c state =
    or_else (get (norm_state state) c.agent.max_concurrent_by_state) c.agent.max_concurrent

-- A field of a state's override, if the state has one and the field passes the test.
override {ℓ} : {A : Type ℓ} → Config → Text → (StateOverride → A) → (A → Bool) → A → A
override c state field test default = elim (get (norm_state state) c.states) [
  | none ↦ default
  | some ov ↦ if test (field ov) then field ov else default
]

-- ModelForState.
unfoldable pub model_for_state : Config → Text → Text
unfolding override
model_for_state c state = override c state (λ ov. ov.model) (λ m. not (is_blank m)) c.claude.model

-- ReasoningEffortForState.
unfoldable pub reasoning_effort_for_state : Config → Text → Text
unfolding override
reasoning_effort_for_state c state =
    override c state (λ ov. ov.reasoning_effort) (λ m. not (is_blank m)) c.claude.reasoning_effort

-- MaxTurnsForState.
unfoldable pub max_turns_for_state : Config → Text → ℤ
unfolding override
max_turns_for_state c state =
    override c state (λ ov. ov.max_turns) (λ n. ltb_ℤ (pos 0) n) c.agent.max_turns

-- PromptForState.
unfoldable pub prompt_for_state : Config → Text → Text → Text
unfolding override
prompt_for_state c state default =
    override c state (λ ov. ov.prompt_template) (λ m. not (is_blank m)) default

-- HasPromptOverride.
unfoldable pub has_prompt_override : Config → Text → Bool
has_prompt_override c state = elim (get (norm_state state) c.states) [
  | none ↦ Bool.false
  | some ov ↦ not (is_blank ov.prompt_template)
]
