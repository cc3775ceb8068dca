-- ===== src/Runner.antt =====
-- DefaultRunner of internal/agent/runner.go: one worker attempt, turn after turn.
-- A call of the workspace manager, the backend or the tracker is an entry of the history, newest
-- first; what the call answers is a function of the history before it.
pub mod Calls
pub mod Turns
pub mod Attempt
use my_symphony.Domain.{Issue, Workspace, normalize_state}
use my_symphony.Go.Utf8.{Text, ascii, text_eq, is_blank}
use my_symphony.Base.{
  ◌∷◌, ◌==◌, ◌++◌, ◌&&◌, ℤ, ℕ, pos, ok, not, map, leb_ℤ, if◌then◌else◌, any, [], Result, Option,
  List, Bool,
}

pub data Call : Type 0 where
  create_for_issue : Text → Call
  run_hook : Text → Text → Call
  assert_launch_cwd : Text → Text → Call
  start_session : Text → Text → Text → Call
  run_turn : Text → Call
  fetch_issue_states : List Text → Call
  stop_session : Call

-- The answers: of the interfaces WorkspaceManager, Backend and TrackerRefresher, and of
-- prompt.Render, whose templates are a third party's. An error is its text. What the backend
-- emits during a turn is its own.
pub record Answers : Type 0 where
  pub create : List Call → Text → Result Text Workspace
  pub hook : List Call → Text → Text → Option Text
  pub launch_cwd : List Call → Text → Text → Option Text
  pub turn : List Call → Text → Option Text
  pub states : List Call → List Text → Result Text (List Issue)
  pub render : Text → Issue → Option ℤ → Result Text Text

pub record RunnerConfig : Type 0 where
  pub template : Text
  pub prompt_override : Bool
  pub active_states : List Text
  pub max_turns : ℤ

-- `active_states` holds the keys of the set activeStates.
pub record Runner : Type 0 where
  pub template : Text
  pub prompt_override : Bool
  pub active_states : List Text
  pub max_turns : ℤ

pub data RunError : Type 0 where
  workspace_error : Text → RunError
  before_run_error : Text → RunError
  safety_error : Text → RunError
  prompt_error : Text → RunError
  turn_error : Text → RunError
  refresh_error : Text → RunError

-- NewRunner.
unfoldable pub new_runner : RunnerConfig → Runner
unfolding normalize_state
new_runner cfg = record {
  template = cfg.template;
  prompt_override = cfg.prompt_override;
  active_states = map normalize_state cfg.active_states;
  max_turns = if leb_ℤ cfg.max_turns (pos 0) then pos 1 else cfg.max_turns;
}

-- isActive.
unfoldable pub is_active : Runner → Text → Bool
unfolding normalize_state text_eq
is_active r state = any (text_eq (normalize_state state)) r.active_states

-- mergeState.
unfoldable pub merge_state : Issue → Issue → Issue
unfolding is_blank
merge_state orig refreshed = record orig {
  state = if is_blank refreshed.state then orig.state else refreshed.state;
  labels = refreshed.labels;
}

-- `issue = mergeState(issue, refreshed[0])`, where there is one.
unfoldable pub merge_first : Issue → List Issue → Issue
unfolding merge_state
merge_first issue [] = issue
merge_first issue (r ∷ _) = merge_state issue r

-- The prompt of a later turn.
unfoldable pub continuation : Bool → Text → Text → Text
continuation prompt_override identifier title =
    if prompt_override
    then ascii "Continue with "
      ++ identifier
      ++ ascii ": "
      ++ title
      ++ ascii
          "\n\nThe issue is still active. Keep following your original task instructions above. "
      ++ ascii "Do not restart from scratch; build on what you have already done in this session."
    else ascii "Continue working on "
      ++ identifier
      ++ ascii ": "
      ++ title
      ++ ascii "\n\nThe issue is still active. Review what remains to be done and continue. "
      ++ ascii "Do not restart from scratch; build on the work already in this session."

-- buildTurnPrompt.
unfoldable pub build_turn_prompt : Answers → Runner → Issue → Option ℤ → ℕ → Result Text Text
unfolding continuation
build_turn_prompt env r issue attempt turn =
    if turn == 1
    then env.render r.template issue attempt
    else ok (continuation r.prompt_override issue.identifier issue.title)

-- afterRun: a failure is logged only.
unfoldable pub after_run : Text → List Call → List Call
after_run path h = run_hook (ascii "after_run") path ∷ h

-- The way out of the loop.
unfoldable pub finish : Text → List Call → Option RunError → List Call × Option RunError
unfolding after_run
finish path h e = (after_run path (stop_session ∷ h), e)

-- Whether another turn follows, given the issue as refreshed.
unfoldable pub goes_on : Runner → Text → Issue → ℕ → Bool
unfolding is_active normalize_state text_eq
goes_on r dispatch_state issue turn =
    is_active r issue.state
    && text_eq (normalize_state issue.state) dispatch_state
    && not (leb_ℤ r.max_turns (pos turn))
