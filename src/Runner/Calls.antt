-- ===== src/Runner/Calls.antt =====
-- What a worker attempt of internal/agent/runner.go does, counted in its calls.
use my_symphony.Runner.{
  Call, Answers, Runner, RunError, run_turn, run_hook, start_session, stop_session, goes_on, finish,
  after_run, workspace_error, before_run_error,
}
use my_symphony.Runner.Turns.{one_turn, turn_loop}
use my_symphony.Go.Utf8.{Text, ascii, text_eq}
use my_symphony.Base.{
  err, none, inr, inl, Result-cases, Bool-cases, ◌<◌, zero, suc, refl, pos_part, arith, ◌≤◌, ◌≡◌,
  ◌∷◌, ◌+◌, ℤ, ℕ, true, some, if◌then◌else◌, false, [], Option, List, Bool,
}
use my_symphony.Domain.{Issue}

abbrev pub is_turn : Call → Bool
is_turn (run_turn _) = true
is_turn _ = false

abbrev pub is_start : Call → Bool
is_start (start_session _ _ _) = true
is_start _ = false

abbrev pub is_stop : Call → Bool
is_stop stop_session = true
is_stop _ = false

abbrev pub is_after_run : Call → Bool
is_after_run (run_hook name _) = text_eq name (ascii "after_run")
is_after_run _ = false

abbrev pub count : (Call → Bool) → List Call → ℕ
count p [] = 0
count p (c ∷ h) = (if p c then 1 else 0) + count p h

-- The calls of an attempt.
pub record Counts : Type 0 where
  pub turns : ℕ
  pub starts : ℕ
  pub stops : ℕ
  pub after_runs : ℕ

abbrev pub counts : List Call → Counts
counts h = record {
  turns = count is_turn h;
  starts = count is_start h;
  stops = count is_stop h;
  after_runs = count is_after_run h;
}

-- The errors of an attempt that has no workspace ready: Run returns them at once.
abbrev pub not_ready : Option RunError → Bool
not_ready (some (workspace_error _)) = true
not_ready (some (before_run_error _)) = true
not_ready _ = false

-- From the history `h`, a part of the attempt ends: it makes at most `n` turns, `starts` starts,
-- `stops` stops and `after` runs of after_run.
pub record Ends (h : List Call) (n starts stops after : ℕ)
    (out : Option (List Call × Option RunError)) : Type 0 where
  pub history : List Call
  pub error : Option RunError
  pub ends : out ≡ some (history, error)
  pub few_turns : count is_turn history ≤ count is_turn h + n
  pub started : count is_start history ≡ count is_start h + starts
  pub stopped : count is_stop history ≡ count is_stop h + stops
  pub cleaned : count is_after_run history ≡ count is_after_run h + after
  pub ready : not_ready error ≡ false

module _ (env : Answers) (r : Runner) (attempt : Option ℤ) where
  -- A turn is at most one turn, and starts and stops nothing.
  one_turn-counts :
      (h : List Call) (issue : Issue) (turn : ℕ)
      → let h1 = (one_turn env r attempt h issue turn).0 in
        (count is_turn h1 ≤ count is_turn h + 1)
        × (count is_start h1 ≡ count is_start h)
        × (count is_stop h1 ≡ count is_stop h)
        × (count is_after_run h1 ≡ count is_after_run h)
  unfolding one_turn
  one_turn-counts h issue turn = (ground arith, ground arith, ground arith, ground arith)

  one_turn-err :
      (h : List Call) (issue : Issue) (turn : ℕ) (e : RunError)
      → (one_turn env r attempt h issue turn).1 ≡ err e
      → not_ready (some e) ≡ false
  unfolding one_turn
  one_turn-err h issue turn e is_err = ground arith

module _ (path : Text) where
  finish-Ends :
      (h h1 : List Call) (n : ℕ) (e : Option RunError)
      → not_ready e ≡ false
      → count is_turn h1 ≤ count is_turn h + n
      → count is_start h1 ≡ count is_start h
      → count is_stop h1 ≡ count is_stop h
      → count is_after_run h1 ≡ count is_after_run h
      → Ends h n 0 1 1 (some (finish path h1 e))
  unfolding finish after_run text_eq
  finish-Ends h h1 n e hr ht hs hp ha = record {
    history = run_hook (ascii "after_run") path ∷ stop_session ∷ h1;
    error = e;
    ends = refl;
    few_turns = omega arith;
    started = omega arith;
    stopped = omega arith;
    cleaned = omega arith;
    ready = hr;
  }

goes_on-less :
    (r : Runner) (dispatch_state : Text) (issue : Issue) (turn : ℕ)
    → goes_on r dispatch_state issue turn ≡ true
    → turn < pos_part r.max_turns
unfolding goes_on
goes_on-less r dispatch_state issue turn h = ground arith

module _ (env : Answers) (r : Runner) (attempt : Option ℤ) (path dispatch_state : Text) where
  -- A loop with fuel for the turns that are left ends, having stopped once.
  pub turn_loop-Ends :
      (fuel : ℕ) (h : List Call) (issue : Issue) (turn : ℕ)
      → turn ≤ pos_part r.max_turns
      → fuel + turn ≡ pos_part r.max_turns + 1
      → Ends h fuel 0 1 1 (turn_loop env r attempt path dispatch_state fuel h issue turn)
  unfolding turn_loop
  turn_loop-Ends zero h issue turn hle hf = absurd (omega arith)
  turn_loop-Ends (suc fuel) h issue turn hle hf =
      let c = one_turn-counts env r attempt h issue turn in
      let h1 = (one_turn env r attempt h issue turn).0 in
      elim (Result-cases (one_turn env r attempt h issue turn).1) [
        | inr (e, is_err) ↦
            rw (turn_loop, is_err)
              (finish-Ends path h h1 (suc fuel) (some e)
                (one_turn-err env r attempt h issue turn e is_err) (omega arith) c.1 c.2 c.3)
        | inl (next, is_ok) ↦
            rw (turn_loop, is_ok)
              (elim (Bool-cases (goes_on r dispatch_state next turn)) [
                | inr ends ↦
                    rw ends (finish-Ends path h h1 (suc fuel) none refl (omega arith) c.1 c.2 c.3)
                | inl more ↦ rw more (
                    let t = goes_on-less r dispatch_state next turn more in
                    let i = turn_loop-Ends fuel h1 next (turn + 1) (omega arith) (omega arith) in
                    record {
                      history = i.history;
                      error = i.error;
                      ends = i.ends;
                      few_turns = omega (arith, i.few_turns);
                      started = omega (arith, i.started);
                      stopped = omega (arith, i.stopped);
                      cleaned = omega (arith, i.cleaned);
                      ready = i.ready;
                    })
              ])
      ]
