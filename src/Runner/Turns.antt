-- ===== src/Runner/Turns.antt =====
-- The turn loop and Run of internal/agent/runner.go.
use my_symphony.Runner.{
  finish, merge_first, goes_on, build_turn_prompt, after_run, Call, Answers, Runner, RunError,
  run_turn, fetch_issue_states, run_hook, start_session, assert_launch_cwd, create_for_issue,
  turn_error, refresh_error, prompt_error, safety_error, before_run_error, workspace_error,
}
use my_symphony.Base.{
  ◌∷◌, ◌+◌, ℤ, ℕ, zero, true, suc, some, pos_part, ok, none, false, err, [], Result, Option, List,
}
use my_symphony.Domain.{normalize_state, Issue}
use my_symphony.Go.Utf8.{ascii, Text}

module _ (env : Answers) (r : Runner) (attempt : Option ℤ) where
  -- A turn and the refresh after it: the history, and the issue the loop goes on with.
  unfoldable pub one_turn : List Call → Issue → ℕ → List Call × Result RunError Issue
  unfolding build_turn_prompt merge_first
  one_turn h issue turn = elim (build_turn_prompt env r issue attempt turn) [
    | err e ↦ (h, err (prompt_error e))
    | ok p ↦ elim (env.turn h p) [
      | some e ↦ (run_turn p ∷ h, err (turn_error e))
      | none ↦ elim (env.states (run_turn p ∷ h) (issue.id ∷ [])) [
        | err e ↦ (fetch_issue_states (issue.id ∷ []) ∷ run_turn p ∷ h, err (refresh_error e))
        | ok refreshed ↦
            (fetch_issue_states (issue.id ∷ []) ∷ run_turn p ∷ h, ok (merge_first issue refreshed))
      ]
    ]
  ]

module _ (env : Answers) (r : Runner) (attempt : Option ℤ) (path dispatch_state : Text) where
  -- The `for` loop; `none` where the fuel does not suffice.
  unfoldable pub turn_loop : ℕ → List Call → Issue → ℕ → Option (List Call × Option RunError)
  turn_loop zero h issue turn = none
  turn_loop (suc fuel) h issue turn =
      let (h1, outcome) = one_turn env r attempt h issue turn in
      elim outcome [
        | err e ↦ some (finish path h1 (some e))
        | ok next ↦ elim (goes_on r dispatch_state next turn) [
          | true ↦ turn_loop fuel h1 next (turn + 1)
          | false ↦ some (finish path h1 none)
        ]
      ]

-- Run from AssertLaunchCWD on, in the workspace at `path`.
unfoldable pub launch :
    Answers → Runner → Issue → Option ℤ → Text → List Call → Option (List Call × Option RunError)
launch env r issue attempt path h =
    let h1 = assert_launch_cwd issue.identifier path ∷ h in
    elim (env.launch_cwd h issue.identifier path) [
      | some e ↦ some (after_run path h1, some (safety_error e))
      | none ↦
          turn_loop env r attempt path (normalize_state issue.state) (pos_part r.max_turns)
            (start_session path issue.identifier issue.title ∷ h1) issue 1
    ]

-- Run: the calls it makes after those of the history, and its error.
unfoldable pub run_worker :
    Answers → Runner → Issue → Option ℤ → List Call → Option (List Call × Option RunError)
run_worker env r issue attempt h =
    let h1 = create_for_issue issue.identifier ∷ h in
    elim (env.create h issue.identifier) [
      | err e ↦ some (h1, some (workspace_error e))
      | ok ws ↦
          let h2 = run_hook (ascii "before_run") ws.path ∷ h1 in
          elim (env.hook h1 (ascii "before_run") ws.path) [
            | some e ↦ some (h2, some (before_run_error e))
            | none ↦ launch env r issue attempt ws.path h2
          ]
    ]
