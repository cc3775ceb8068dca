-- ===== src/Orchestrator/Retry/Exits.antt =====
-- What follows the end of a worker, on every branch of onWorkerExit.
use my_symphony.Orchestrator.Env.{exit_normal, exit_abnormal, ExitReason, Env}
use my_symphony.Base.{
  if_elim, ◌-◌, ◌+◌, true, not, none, false, ◌≡◌, ◌+ℤ◌, ℤ, some, refl, pos, if◌then◌else◌, arith,
  Option, Bool,
}
use my_symphony.Orchestrator.State.{set_claimed, RunningEntry, Orchestrator}
use my_symphony.Go.Maps.{delete, has, get, get-put}
use my_symphony.Orchestrator.Timers.{
  remove_retry_timer, unix_milli, schedule_retry, retry_delay, clamp_attempt,
}
use my_symphony.Go.Utf8.{text_eq_refl, Text}
use my_symphony.Domain.{RetryEntry}
use my_symphony.Orchestrator.Retry.{reschedule, set_completed, on_worker_exit, exit_message, retire}
use my_symphony.Orchestrator.Claims.{retire-keys, schedule_retry-keys}
use my_symphony.Orchestrator.Shape.{notify-state, has-delete}
use my_symphony.Go.Int64.{add64}
use my_symphony.Orchestrator.Snapshots.{notify}

-- The retry that an issue waits for after its worker's end: attempt 1 after 1 s where it ended
-- normally, the next attempt after the back-off where it failed.
pub expected_retry : Env → Text → ExitReason → Option Text → RunningEntry → ℤ → RetryEntry
expected_retry env id exit_normal error entry cap = record {
  issue_id = id;
  identifier = entry.identifier;
  attempt = pos 1;
  due_at_ms = unix_milli (pos env.now +ℤ retry_delay true (pos 1) cap);
  timer = some (retry_delay true (pos 1) cap);
  error = none;
  url = entry.issue.url;
}
expected_retry env id exit_abnormal error entry cap =
    let attempt = add64 entry.retry_attempt (pos 1) in
    record {
      issue_id = id;
      identifier = entry.identifier;
      attempt = clamp_attempt attempt;
      due_at_ms = unix_milli (pos env.now +ℤ retry_delay false attempt cap);
      timer = some (retry_delay false attempt cap);
      error = some (exit_message error);
      url = entry.issue.url;
    }

retire-cfg :
    (env : Env) (k : Text) (entry : RunningEntry) (o : Orchestrator)
    → (retire env k entry o).cfg ≡ o.cfg
unfolding retire
retire-cfg env k entry o = ground arith

schedule_retry-totals :
    (env : Env) (k : Text) (attempt : ℤ) (identifier : Text) (url error : Option Text)
    (continuation : Bool) (o : Orchestrator)
    → (schedule_retry env k attempt identifier url error continuation o).claude_totals
      ≡ o.claude_totals
unfolding schedule_retry remove_retry_timer
schedule_retry-totals env k attempt identifier url error continuation o = ground arith

retire-totals :
    (env : Env) (k : Text) (entry : RunningEntry) (o : Orchestrator)
    → (retire env k entry o).claude_totals.seconds_running
      ≡ o.claude_totals.seconds_running + (env.now - entry.started_at)
unfolding retire
retire-totals env k entry o = ground arith

schedule_retry-entry :
    (env : Env) (k : Text) (attempt : ℤ) (identifier : Text) (url error : Option Text)
    (continuation : Bool) (o : Orchestrator)
    → let delay = retry_delay continuation attempt o.cfg.agent.max_retry_backoff_ms in
      get k (schedule_retry env k attempt identifier url error continuation o).retry_attempts
      ≡ some (record {
        issue_id = k;
        identifier = identifier;
        attempt = if continuation then attempt else clamp_attempt attempt;
        due_at_ms = unix_milli (pos env.now +ℤ delay);
        timer = some delay;
        error = error;
        url = url;
      })
unfolding schedule_retry
schedule_retry-entry env k attempt identifier url error continuation o =
    rw get-put (rw (text_eq_refl k) refl)

reschedule-lem :
    (env : Env) (k : Text) (reason : ExitReason) (error : Option Text) (entry : RunningEntry)
    (o : Orchestrator)
    → let p = reschedule env k reason error entry o in
      (p.running ≡ o.running)
      × (has k p.claimed ≡ true)
      × (get k p.retry_attempts
          ≡ some (expected_retry env k reason error entry o.cfg.agent.max_retry_backoff_ms))
      × (p.claude_totals ≡ o.claude_totals)
unfolding reschedule expected_retry
reschedule-lem env k exit_normal error entry o =
    let q = set_completed k o in
    let keys = schedule_retry-keys env k (pos 1) entry.identifier entry.issue.url none true q k in
    (
      keys.0,
      ground (arith, keys, text_eq_refl k),
      schedule_retry-entry env k (pos 1) entry.identifier entry.issue.url none true q,
      schedule_retry-totals env k _ _ _ _ true q,
    )
reschedule-lem env k exit_abnormal error entry o =
    let attempt = add64 entry.retry_attempt (pos 1) in
    let keys =
      schedule_retry-keys env k attempt entry.identifier entry.issue.url (some (exit_message error))
        false o k in
    (
      keys.0,
      ground (arith, keys, text_eq_refl k),
      schedule_retry-entry env k attempt entry.identifier entry.issue.url
          (some (exit_message error)) false o,
      schedule_retry-totals env k _ _ _ _ false o,
    )

abbrev Exited :
    Env → Text → ExitReason → Option Text → RunningEntry → Orchestrator → Orchestrator → Type 0
Exited env id reason error entry o p =
    (has id p.running ≡ false)
    × (has id p.claimed ≡ not entry.release_on_exit)
    × (get id p.retry_attempts ≡ (
        if entry.release_on_exit
        then get id o.retry_attempts
        else some (expected_retry env id reason error entry o.cfg.agent.max_retry_backoff_ms)))
    × (p.claude_totals.seconds_running
        ≡ o.claude_totals.seconds_running + (env.now - entry.started_at))

notify-Exited :
    (env : Env) (id : Text) (reason : ExitReason) (error : Option Text) (entry : RunningEntry)
    (o p : Orchestrator)
    → Exited env id reason error entry o p
    → Exited env id reason error entry o (notify env p)
notify-Exited env id reason error entry o p h = rw (notify-state env p) h

released-Exited :
    (env : Env) (id : Text) (reason : ExitReason) (error : Option Text) (entry : RunningEntry)
    (o : Orchestrator)
    → entry.release_on_exit ≡ true
    → let p = retire env id entry o in
      Exited env id reason error entry o (set_claimed (delete id p.claimed) p)
unfolding set_claimed
released-Exited env id reason error entry o r =
    let p = retire env id entry o in
    let keys = retire-keys env id entry o id in
    (
      ground (arith, keys.0, text_eq_refl id),
      ground (arith, has-delete id id p.claimed, text_eq_refl id),
      ground (arith, keys.2),
      retire-totals env id entry o,
    )

kept-Exited :
    (env : Env) (id : Text) (reason : ExitReason) (error : Option Text) (entry : RunningEntry)
    (o : Orchestrator)
    → entry.release_on_exit ≡ false
    → Exited env id reason error entry o
        (reschedule env id reason error entry (retire env id entry o))
kept-Exited env id reason error entry o r =
    let p = retire env id entry o in
    let keys = retire-keys env id entry o id in
    let (running, claimed, retry, totals) = reschedule-lem env id reason error entry p in
    (
      rw running (ground (arith, keys.0, text_eq_refl id)),
      ground (arith, claimed),
      ground (arith, retry, retire-cfg env id entry o),
      rw totals (retire-totals env id entry o),
    )

-- The end of the worker of a running issue: the issue no longer runs, and the worker's time is
-- added up. If it was released, its claim goes and no retry is set; otherwise the claim stays, and
-- the retry is the expected one for the reason of the exit.
pub on_worker_exit_lem :
    (env : Env) (id : Text) (reason : ExitReason) (error : Option Text) (entry : RunningEntry)
    (o : Orchestrator)
    → get id o.running ≡ some entry
    → let p = on_worker_exit env id reason error o in
      (has id p.running ≡ false)
      × (has id p.claimed ≡ not entry.release_on_exit)
      × (get id p.retry_attempts ≡ (
          if entry.release_on_exit
          then get id o.retry_attempts
          else some (expected_retry env id reason error entry o.cfg.agent.max_retry_backoff_ms)))
      × (p.claude_totals.seconds_running
          ≡ o.claude_totals.seconds_running + (env.now - entry.started_at))
unfolding on_worker_exit
on_worker_exit_lem env id reason error entry o e =
    rw (e, on_worker_exit)
      (if_elim (Exited env id reason error entry o) entry.release_on_exit
        (λ r.
          notify-Exited env id reason error entry o _
            (released-Exited env id reason error entry o r))
        (λ r.
          notify-Exited env id reason error entry o _ (kept-Exited env id reason error entry o r)))
