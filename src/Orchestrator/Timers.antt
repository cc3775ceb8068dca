-- ===== src/Orchestrator/Timers.antt =====
-- The timers of internal/orchestrator/orchestrator.go: the next tick, and the back-off of retries.
pub mod Backoff
use my_symphony.Base.{
  ◌-◌, ◌*◌, ◌/◌, ◌^◌, Bool, if◌then◌else◌, Option, none, some, ℤ, pos, negsuc, pos_part, ltb_ℤ,
  ◌+ℤ◌,
}
use my_symphony.Go.Int64.{wrap, mul64, float_of_int}
use my_symphony.Go.Utf8.{Text}
use my_symphony.Go.Maps.{get, put, delete}
use my_symphony.Domain.{RetryEntry}
use my_symphony.Orchestrator.State.{
  Orchestrator, effect, set_retries, set_claimed, starts_tick_timer, stops_tick_timer,
  starts_retry_timer, stops_retry_timer,
}
use my_symphony.Orchestrator.Env.{Env}

-- `time.Duration(ms) * time.Millisecond`, in nanoseconds.
unfoldable pub milliseconds : ℤ → ℤ
milliseconds ms = mul64 ms (pos 1_000_000)

-- scheduleTick.
unfoldable pub schedule_tick : ℤ → Orchestrator → Orchestrator
unfolding effect
schedule_tick delay o =
    let stopped : Orchestrator = elim o.tick_timer [
      | none ↦ o
      | some _ ↦ effect stops_tick_timer o
    ] in
    record (effect (starts_tick_timer delay) stopped) { tick_timer = some delay }

-- The delay before a retry, in milliseconds, as the float64 computation gives it: 10000 * 2 ^
-- (attempt - 1), held to the cap. An attempt below 1 counts as 1. A power beyond float64 is +Inf
-- there, and beyond every cap here.
unfoldable pub clamp_attempt : ℤ → ℤ
clamp_attempt attempt = if ltb_ℤ attempt (pos 1) then pos 1 else attempt

unfoldable pub backoff_ms : ℤ → ℤ → ℤ
backoff_ms attempt cap =
    let ms = pos (10000 * 2 ^ (pos_part (clamp_attempt attempt) - 1)) in
    if ltb_ℤ (float_of_int cap) ms then float_of_int cap else ms

unfoldable pub retry_delay : Bool → ℤ → ℤ → ℤ
retry_delay continuation attempt cap =
    if continuation then milliseconds (pos 1000) else milliseconds (wrap (backoff_ms attempt cap))

-- `time.UnixMilli` of an instant in nanoseconds.
unfoldable pub unix_milli : ℤ → ℤ
unix_milli (pos n) = pos (n / 1_000_000)
unix_milli (negsuc n) = negsuc (n / 1_000_000)

-- removeRetryTimer.
unfoldable pub remove_retry_timer : Text → Orchestrator → Orchestrator
unfolding effect set_retries
remove_retry_timer id o = elim (get id o.retry_attempts) [
  | none ↦ o
  | some entry ↦
      let stopped : Orchestrator = elim entry.timer [
        | none ↦ o
        | some _ ↦ effect (stops_retry_timer id) o
      ] in
      set_retries (delete id o.retry_attempts) stopped
]

-- scheduleRetry.
unfoldable pub schedule_retry :
    Env → Text → ℤ → Text → Option Text → Option Text → Bool → Orchestrator → Orchestrator
unfolding effect set_retries set_claimed
schedule_retry env id attempt identifier url error continuation o =
    let removed = remove_retry_timer id o in
    let delay = retry_delay continuation attempt o.cfg.agent.max_retry_backoff_ms in
    let entry : RetryEntry = record {
      issue_id = id;
      identifier = identifier;
      attempt = if continuation then attempt else clamp_attempt attempt;
      due_at_ms = unix_milli (pos env.now +ℤ delay);
      timer = some delay;
      error = error;
      url = url;
    } in
    let started = effect (starts_retry_timer id delay) removed in
    let scheduled = set_retries (put id entry started.retry_attempts) started in
    set_claimed (put id tt scheduled.claimed) scheduled
