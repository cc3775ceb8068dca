-- ===== src/Runner/Attempt.antt =====
-- What Run of internal/agent/runner.go promises of a whole attempt.
use my_symphony.Runner.Calls.{
  is_turn, is_start, is_stop, is_after_run, count, counts, Counts, not_ready, turn_loop-Ends,
}
use my_symphony.Runner.{
  new_runner, after_run, RunnerConfig, Runner, RunError, Call, Answers, run_hook, create_for_issue,
  workspace_error, safety_error, start_session, assert_launch_cwd, before_run_error,
}
use my_symphony.Domain.{Issue, normalize_state}
use my_symphony.Base.{
  ◌≤◌, ◌≡◌, ◌∷◌, ℤ, ℕ, some, refl, pos_part, inr, inl, if◌then◌else◌, arith, ap, [], Result-cases,
  Option-cases, Option, List,
}
use my_symphony.Go.Utf8.{ascii, text_eq, Text}
use my_symphony.Runner.Turns.{launch, run_worker}

-- From a history without sessions and hooks, an attempt ends.
pub record IsCleanRun (max_turns : ℕ) (out : Option (List Call × Option RunError)) : Type 0 where
  pub history : List Call
  pub error : Option RunError
  pub ends : out ≡ some (history, error)
  pub few_turns : count is_turn history ≤ max_turns
  pub one_session : count is_start history ≤ 1
  pub all_stopped : count is_stop history ≡ count is_start history
  pub cleaned : count is_after_run history ≡ (if not_ready error then 0 else 1)

launch-IsCleanRun :
    (env : Answers) (r : Runner) (issue : Issue) (attempt : Option ℤ) (path : Text) (h : List Call)
    → counts h ≡ record { turns = 0; starts = 0; stops = 0; after_runs = 0 }
    → 1 ≤ pos_part r.max_turns
    → IsCleanRun (pos_part r.max_turns) (launch env r issue attempt path h)
unfolding launch after_run text_eq
launch-IsCleanRun env r issue attempt path h h0 h1 =
    elim (Option-cases (env.launch_cwd h issue.identifier path)) [
      | inr (e, unsafe) ↦
          rw (launch, unsafe)
            record {
              history =
                  run_hook (ascii "after_run") path ∷ assert_launch_cwd issue.identifier path ∷ h;
              error = some (safety_error e);
              ends = refl;
              few_turns = omega (arith, ap Counts.turns h0);
              one_session = omega (arith, ap Counts.starts h0);
              all_stopped = omega (arith, ap Counts.starts h0, ap Counts.stops h0);
              cleaned = omega (arith, ap Counts.after_runs h0);
            }
      | inl safe ↦
          rw (launch, safe)
            (let h2 =
                start_session path issue.identifier issue.title
                ∷ assert_launch_cwd issue.identifier path
                ∷ h in
              let i =
                turn_loop-Ends env r attempt path (normalize_state issue.state)
                  (pos_part r.max_turns) h2 issue 1 (omega arith) (omega arith) in
              record {
                history = i.history;
                error = i.error;
                ends = i.ends;
                few_turns = omega (arith, i.few_turns, ap Counts.turns h0);
                one_session = omega (arith, i.started, ap Counts.starts h0);
                all_stopped =
                    omega (arith, i.started, i.stopped, ap Counts.starts h0, ap Counts.stops h0);
                cleaned = rw i.ready (omega (arith, i.cleaned, ap Counts.after_runs h0));
              })
    ]

-- NewRunner gives every runner a turn.
new_runner-turns : (cfg : RunnerConfig) → 1 ≤ pos_part (new_runner cfg).max_turns
unfolding new_runner
new_runner-turns cfg = ground arith

-- Whatever the workspace manager, the backend and the tracker answer, an attempt of a runner that
-- NewRunner built ends, after at most max_turns turns and with at most one session started; each
-- session it starts it stops, and it runs after_run exactly once, except where CreateForIssue or
-- before_run failed, where it does not run it.
pub run_worker_lem :
    (env : Answers) (cfg : RunnerConfig) (issue : Issue) (attempt : Option ℤ)
    → IsCleanRun
        (pos_part (new_runner cfg).max_turns)
        (run_worker env (new_runner cfg) issue attempt [])
unfolding run_worker text_eq
run_worker_lem env cfg issue attempt = elim (Result-cases (env.create [] issue.identifier)) [
  | inr (e, is_err) ↦
      rw (run_worker, is_err)
        record {
          history = create_for_issue issue.identifier ∷ [];
          error = some (workspace_error e);
          ends = refl;
          few_turns = omega arith;
          one_session = omega arith;
          all_stopped = refl;
          cleaned = refl;
        }
  | inl (ws, is_ok) ↦
      rw (run_worker, is_ok)
        (let h1 = create_for_issue issue.identifier ∷ [] in
          elim (Option-cases (env.hook h1 (ascii "before_run") ws.path)) [
            | inr (e, failed) ↦ rw failed record {
              history = run_hook (ascii "before_run") ws.path ∷ h1;
              error = some (before_run_error e);
              ends = refl;
              few_turns = omega arith;
              one_session = omega arith;
              all_stopped = refl;
              cleaned = refl;
            }
            | inl passed ↦ rw passed (
                launch-IsCleanRun env (new_runner cfg) issue attempt ws.path
                  (run_hook (ascii "before_run") ws.path ∷ h1) refl (new_runner-turns cfg))
          ])
]
