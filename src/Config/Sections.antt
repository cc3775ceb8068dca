-- ===== src/Config/Sections.antt =====
-- What the sections of a configuration are that New of internal/config/config.go builds.
use my_symphony.Config.{ClaudeConfig, AgentConfig, HooksConfig, StateOverride}
use my_symphony.Config.Coerce.{
  expand_path, as_string, first_non_empty, as_int_strict, normalize_state_map, state_limits,
}
use my_symphony.Config.Build.{
  hooks_config, agent_config, claude_config, parse_override, override_prompt, override_turns,
  validate_effort, resolve_workspace_root, below_base,
}
use my_symphony.Go.Value.{
  null, unread, arr, str, float, int, boolean, Value, Fields, object, end, field, index,
}
use my_symphony.Go.Utf8.{Text, ascii, is_blank}
use my_symphony.Go.Strings.{trim_space, to_lower}
use my_symphony.Go.Maps.{Map, put}
use my_symphony.Go.Filepath.{join, is_abs, abs, clean}
use my_symphony.Go.Os.{Process}
use my_symphony.Base.{
  ◌++◌, refl, leb_ℤ, inr, inl, if◌then◌else◌, if_elim, Result-cases, Option-cases, Bool-cases, ◌≤ℤ◌,
  ◌≡◌, ◌∷◌, ◌<ℤ◌, ℤ, true, pos, ok, none, false, arith, [], All,
}

pub record IsOverride (ov : StateOverride) : Type 0 where
  pub turns : pos 0 ≤ℤ ov.max_turns
  pub effort : validate_effort ov.reasoning_effort ≡ none

pub put-All {ℓ κ} :
    {V : Type ℓ} (P : V → Type κ) (k : Text) (v : V) (m : Map V)
    → P v
    → All (λ entry. P entry.1) m
    → All (λ entry. P entry.1) (put k v m)
unfolding put
put-All P k v [] hv h = (hv, tt)
put-All P k v ((j, w) ∷ m) hv h = ground (arith, put-All P k v m hv h.1)

state_limits-positive :
    (fs : Fields) (out : Map ℤ)
    → All (λ entry. pos 0 <ℤ entry.1) out
    → All (λ entry. pos 0 <ℤ entry.1) (state_limits fs out)
unfolding state_limits
state_limits-positive end out h = h
state_limits-positive (field k v fs) out h = elim (Option-cases (as_int_strict v (pos 0))) [
  | inl is_none ↦ rw (state_limits, is_none) (state_limits-positive fs out h)
  | inr (n, is_n) ↦
      rw (state_limits, is_n)
        (state_limits-positive fs
          (if leb_ℤ n (pos 0) then out else put (to_lower (trim_space k)) n out)
          (if_elim (All (λ entry. pos 0 <ℤ entry.1)) (leb_ℤ n (pos 0)) (λ _. h)
            (λ positive.
              put-All (λ z. pos 0 <ℤ z) (to_lower (trim_space k)) n out (ground arith) h)))
]

normalize_state_map-positive : (v : Value) → All (λ entry. pos 0 <ℤ entry.1) (normalize_state_map v)
unfolding normalize_state_map
normalize_state_map-positive (object fs) = state_limits-positive fs [] tt
normalize_state_map-positive null = tt
normalize_state_map-positive (boolean _) = tt
normalize_state_map-positive (int _) = tt
normalize_state_map-positive (float _ _) = tt
normalize_state_map-positive (str _) = tt
normalize_state_map-positive (arr _) = tt
normalize_state_map-positive unread = tt

override_turns-nonnegative : (sm : Fields) → pos 0 ≤ℤ override_turns sm
unfolding override_turns
override_turns-nonnegative sm = ground arith

pub parse_override-IsOverride :
    (os : Process) (dir : Text) (sm : Fields) (ov : StateOverride)
    → parse_override os dir sm ≡ ok ov
    → IsOverride ov
unfolding parse_override
parse_override-IsOverride os dir sm ov h =
    let effort = trim_space (as_string (index (ascii "reasoning_effort") sm)) in
    elim (Option-cases (validate_effort effort)) [
      | inr (e, rejected) ↦ absurd (ground arith)
      | inl accepted ↦ elim (Result-cases (override_prompt os dir sm)) [
        | inr (e, no_body) ↦ absurd (ground arith)
        | inl (body, is_body) ↦ record {
          turns = ground (arith, override_turns-nonnegative sm);
          effort = ground arith;
        }
      ]
    ]

pub hooks_config-timeout :
    (m : Fields) (hooks : HooksConfig) → hooks_config m ≡ ok hooks → pos 0 ≤ℤ hooks.timeout_ms
unfolding hooks_config
hooks_config-timeout m hooks h = ground arith

pub agent_config-valid :
    (m : Fields) (agent : AgentConfig)
    → agent_config m ≡ ok agent
    → (pos 0 <ℤ agent.max_turns) × All (λ entry. pos 0 <ℤ entry.1) agent.max_concurrent_by_state
unfolding agent_config
agent_config-valid m agent h =
    let limits = index (ascii "max_concurrent_agents_by_state") m in
    (ground arith, ground (arith, normalize_state_map-positive limits))

first_non_empty-second :
    (a b : Text)
    → is_blank (trim_space b) ≡ false
    → is_blank (trim_space (first_non_empty a b)) ≡ false
unfolding first_non_empty
first_non_empty-second a b h = ground arith

abbrev default_command : Text
default_command = ascii "claude -p --output-format stream-json --verbose"

nonblank : is_blank (trim_space default_command) ≡ false
unfolding trim_space is_blank
nonblank = refl

default_command-nonblank :
    (a : Text) → is_blank (trim_space (first_non_empty a default_command)) ≡ false
default_command-nonblank a = first_non_empty-second a default_command nonblank

pub claude_config-valid :
    (m : Fields) (claude : ClaudeConfig)
    → claude_config m ≡ ok claude
    → (validate_effort claude.reasoning_effort ≡ none)
      × (is_blank (trim_space claude.command) ≡ false)
unfolding claude_config
claude_config-valid m claude h =
    (ground arith, ground (arith, default_command-nonblank (as_string (index (ascii "command") m))))

clean-IsAbs : (path : Text) → is_abs path ≡ true → is_abs (clean path) ≡ true
unfolding clean is_abs
clean-IsAbs path h = ground arith

join-IsAbs : (a b : Text) → is_abs a ≡ true → is_abs (join a b) ≡ true
unfolding join is_abs is_blank
join-IsAbs [] b h = absurd (ground arith)
join-IsAbs (c ∷ a) b h = ground (arith, clean-IsAbs (c ∷ a), clean-IsAbs (c ∷ (a ++ b'/' ∷ b)))

abs-IsAbs :
    (os : Process) (wd path : Text)
    → os.getwd ≡ ok wd
    → is_abs wd ≡ true
    → (a : Text) × (abs os.getwd path ≡ ok a) × (is_abs a ≡ true)
unfolding abs
abs-IsAbs os wd path is_wd h = elim (Bool-cases (is_abs path)) [
  | inl absolute ↦ (clean path, ground arith, clean-IsAbs path absolute)
  | inr relative ↦ (join wd path, ground arith, join-IsAbs wd path h)
]

-- The workspace root is absolute, where the working directory is.
pub resolve_workspace_root-IsAbs :
    (os : Process) (wd dir root : Text)
    → os.getwd ≡ ok wd
    → is_abs wd ≡ true
    → is_abs (resolve_workspace_root os dir root) ≡ true
unfolding resolve_workspace_root
resolve_workspace_root-IsAbs os wd dir root is_wd h =
    let given =
      if is_blank (trim_space root)
      then join os.temp_dir (ascii "symphony_workspaces")
      else expand_path os root in
    let (a, is_a, ha) = abs-IsAbs os wd (below_base os dir given) is_wd h in
    rw is_a (clean-IsAbs a ha)
