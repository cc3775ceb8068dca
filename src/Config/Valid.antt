-- ===== src/Config/Valid.antt =====
-- Which configurations New of internal/config/config.go returns.
use my_symphony.Config.{Config, StateOverride, norm_state}
use my_symphony.Config.Coerce.{sub_map, as_string}
use my_symphony.Config.Build.{
  new_config, hooks_config, agent_config, claude_config, parse_state_overrides, parse_overrides,
  parse_override, validate_effort,
}
use my_symphony.Go.Value.{
  null, unread, arr, str, float, int, boolean, Value, Fields, object, end, field, index,
}
use my_symphony.Go.Utf8.{Text, ascii, is_blank}
use my_symphony.Go.Strings.{trim_space}
use my_symphony.Go.Maps.{Map, put}
use my_symphony.Go.Filepath.{is_abs}
use my_symphony.Go.Os.{Process}
use my_symphony.Base.{
  sym, inr, inl, Result-cases, ◌≤ℤ◌, ◌≡◌, ◌<ℤ◌, true, pos, ok, none, false, arith, [], All,
}
use my_symphony.Config.Sections.{
  IsOverride, put-All, parse_override-IsOverride, hooks_config-timeout, agent_config-valid,
  claude_config-valid, resolve_workspace_root-IsAbs,
}

pub record IsValid (c : Config) : Type 0 where
  pub turns : pos 0 <ℤ c.agent.max_turns
  pub timeout : pos 0 ≤ℤ c.hooks.timeout_ms
  pub effort : validate_effort c.claude.reasoning_effort ≡ none
  pub command : is_blank (trim_space c.claude.command) ≡ false
  pub limits : All (λ entry. pos 0 <ℤ entry.1) c.agent.max_concurrent_by_state
  pub overrides : All (λ entry. IsOverride entry.1) c.states
  pub root : is_abs c.workspace.root ≡ true

parse_overrides-valid :
    (os : Process) (dir : Text) (fs : Fields) (out states : Map StateOverride)
    → All (λ entry. IsOverride entry.1) out
    → parse_overrides os dir fs out ≡ ok states
    → All (λ entry. IsOverride entry.1) states
unfolding parse_overrides
parse_overrides-valid os dir end out states h is_ok =
    let same : out ≡ states = ground arith in rw (sym same) h
parse_overrides-valid os dir (field k (object sm) fs) out states h is_ok =
    elim (Result-cases (parse_override os dir sm)) [
      | inr (e, rejected) ↦ absurd (ground arith)
      | inl (ov, parsed) ↦
          parse_overrides-valid os dir fs (put (norm_state k) ov out) states
            (put-All IsOverride (norm_state k) ov out
              (parse_override-IsOverride os dir sm ov parsed) h)
            (ground arith)
    ]
parse_overrides-valid os dir (field k null fs) out states h is_ok =
    parse_overrides-valid os dir fs out states h is_ok
parse_overrides-valid os dir (field k (boolean _) fs) out states h is_ok =
    parse_overrides-valid os dir fs out states h is_ok
parse_overrides-valid os dir (field k (int _) fs) out states h is_ok =
    parse_overrides-valid os dir fs out states h is_ok
parse_overrides-valid os dir (field k (float _ _) fs) out states h is_ok =
    parse_overrides-valid os dir fs out states h is_ok
parse_overrides-valid os dir (field k (str _) fs) out states h is_ok =
    parse_overrides-valid os dir fs out states h is_ok
parse_overrides-valid os dir (field k (arr _) fs) out states h is_ok =
    parse_overrides-valid os dir fs out states h is_ok
parse_overrides-valid os dir (field k unread fs) out states h is_ok =
    parse_overrides-valid os dir fs out states h is_ok

parse_state_overrides-valid :
    (os : Process) (dir : Text) (v : Value) (states : Map StateOverride)
    → parse_state_overrides os dir v ≡ ok states
    → All (λ entry. IsOverride entry.1) states
unfolding parse_state_overrides
parse_state_overrides-valid os dir (object fs) states is_ok =
    parse_overrides-valid os dir fs [] states tt is_ok
parse_state_overrides-valid os dir null states is_ok =
    let same : [] ≡ states = ground arith in rw (sym same) tt
parse_state_overrides-valid os dir (boolean _) states is_ok =
    let same : [] ≡ states = ground arith in rw (sym same) tt
parse_state_overrides-valid os dir (int _) states is_ok =
    let same : [] ≡ states = ground arith in rw (sym same) tt
parse_state_overrides-valid os dir (float _ _) states is_ok =
    let same : [] ≡ states = ground arith in rw (sym same) tt
parse_state_overrides-valid os dir (str _) states is_ok =
    let same : [] ≡ states = ground arith in rw (sym same) tt
parse_state_overrides-valid os dir (arr _) states is_ok =
    let same : [] ≡ states = ground arith in rw (sym same) tt
parse_state_overrides-valid os dir unread states is_ok =
    let same : [] ≡ states = ground arith in rw (sym same) tt

-- From a process whose working directory is absolute, every configuration that New returns is valid:
-- the turn budget is positive, the hook timeout is not negative, the efforts, of the default and of
-- each state, are levels of the CLI or empty, the command is not blank, the limits of the states
-- are positive, their turn budgets not negative, and the workspace root is absolute.
pub new_config-IsValid :
    (os : Process) (raw : Fields) (dir wd : Text) (c : Config)
    → os.getwd ≡ ok wd
    → is_abs wd ≡ true
    → new_config os raw dir ≡ ok c
    → IsValid c
unfolding new_config
new_config-IsValid os raw dir wd c is_wd h is_ok =
    elim (Result-cases (hooks_config (sub_map raw (ascii "hooks")))) [
      | inr (e, rejected) ↦ absurd (ground arith)
      | inl (hooks, is_hooks) ↦ elim (Result-cases (agent_config (sub_map raw (ascii "agent")))) [
        | inr (e, rejected) ↦ absurd (ground arith)
        | inl (agent, is_agent) ↦
            elim (Result-cases (claude_config (sub_map raw (ascii "claude")))) [
              | inr (e, rejected) ↦ absurd (ground arith)
              | inl (claude, is_claude) ↦
                  elim (Result-cases (parse_state_overrides os dir (index (ascii "states") raw))) [
                    | inr (e, rejected) ↦ absurd (ground arith)
                    | inl (states, is_states) ↦
                        let (turns, limits) =
                          agent_config-valid (sub_map raw (ascii "agent")) agent is_agent in
                        let (effort, command) =
                          claude_config-valid (sub_map raw (ascii "claude")) claude is_claude in
                        let root =
                          as_string (index (ascii "root") (sub_map raw (ascii "workspace"))) in
                        let absolute = resolve_workspace_root-IsAbs os wd dir root is_wd h in
                        let timeout =
                          hooks_config-timeout (sub_map raw (ascii "hooks")) hooks is_hooks in
                        let overrides =
                          parse_state_overrides-valid os dir (index (ascii "states") raw) states
                            is_states in
                        record {
                          turns = ground arith;
                          timeout = ground arith;
                          effort = ground arith;
                          command = ground arith;
                          limits = ground arith;
                          overrides = ground arith;
                          root = ground arith;
                        }
                  ]
            ]
      ]
    ]
