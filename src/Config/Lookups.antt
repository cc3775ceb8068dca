-- ===== src/Config/Lookups.antt =====
-- What ValidateDispatch and the per-state lookups of internal/config/config.go promise.
use my_symphony.Base.{
  ◌≡◌, ◌↔◌, refl, true, false, none, [], arith, pos, ◌<ℤ◌, ◌⊎◌, inl, inr, Option-cases, Bool-cases,
}
use my_symphony.Go.Utf8.{Text, ascii, text_eq_iff, text_eq_refl, is_blank}
use my_symphony.Go.Strings.{trim_space}
use my_symphony.Go.Maps.{get}
use my_symphony.Config.{
  Config, validate_dispatch, norm_state, max_turns_for_state, prompt_for_state, has_prompt_override,
}

is_blank_iff : (t : Text) → (is_blank t ≡ true) ↔ (t ≡ [])
unfolding is_blank
is_blank_iff [] = (λ _. refl, λ _. refl)
is_blank_iff _ = (λ h. absurd (ground arith), λ h. absurd (ground arith))

-- What a dispatch needs of the configuration.
pub record IsDispatchable (c : Config) : Type 0 where
  pub kind : c.tracker.kind ≡ ascii "linear"
  pub api_key : is_blank c.tracker.api_key ≡ false
  pub project_slug : is_blank c.tracker.project_slug ≡ false
  pub command : is_blank (trim_space c.claude.command) ≡ false

validate_sound : (c : Config) → validate_dispatch c ≡ none → IsDispatchable c
unfolding validate_dispatch
validate_sound c h = record {
  kind = ground (arith, text_eq_iff c.tracker.kind (ascii "linear"));
  api_key = ground arith;
  project_slug = ground arith;
  command = ground arith;
}

validate_complete : (c : Config) → IsDispatchable c → validate_dispatch c ≡ none
unfolding validate_dispatch is_blank
validate_complete c h = rw h.kind (
    rw h.api_key (rw h.project_slug (rw h.command (ground (arith, text_eq_refl (ascii "linear"))))))

-- ValidateDispatch accepts exactly the configurations whose tracker kind is "linear" and whose API
-- key, project slug and trimmed command are not empty.
pub validate_dispatch_iff : (c : Config) → (validate_dispatch c ≡ none) ↔ IsDispatchable c
validate_dispatch_iff c = (validate_sound c, validate_complete c)

-- Where the configured overrides are valid, so is every turn budget: it is positive for each state.
pub max_turns-positive :
    (c : Config) (state : Text) → pos 0 <ℤ c.agent.max_turns → pos 0 <ℤ max_turns_for_state c state
unfolding max_turns_for_state
max_turns-positive c state h = ground arith

-- The prompt of a state is its override exactly where the state counts as overridden, and the
-- default body otherwise: the mode that is logged is the prompt that is used.
pub prompt-override :
    (c : Config) (state default : Text)
    → ((has_prompt_override c state ≡ false) × (prompt_for_state c state default ≡ default))
      ⊎ ((has_prompt_override c state ≡ true)
          × ((other : Text) → prompt_for_state c state other ≡ prompt_for_state c state default)
          × (is_blank (prompt_for_state c state default) ≡ false))
unfolding has_prompt_override prompt_for_state
prompt-override c state default = elim (Option-cases (get (norm_state state) c.states)) [
  | inl e ↦ inl (ground arith, ground arith)
  | inr (ov, e) ↦ elim (Bool-cases (is_blank ov.prompt_template)) [
    | inl b ↦ inl (ground arith, ground arith)
    | inr b ↦ inr (ground arith, (λ other. ground arith), ground arith)
  ]
]
