-- ===== src/Orchestrator/Loop.antt =====
-- The event loop of internal/orchestrator/orchestrator.go.
use my_symphony.Base.{Bool, List, [], ◌∷◌, none, some, ok, err, Result, pos}
use my_symphony.Go.Utf8.{Text}
use my_symphony.Go.Maps.{Map}
use my_symphony.Config.{Config, ConfigError, validate_dispatch}
use my_symphony.Domain.{RetryEntry}
use my_symphony.Orchestrator.State.{
  Orchestrator, RunningEntry, new_runtime_state, effect, replies, cancels, stops_tick_timer,
  stops_retry_timer,
}
use my_symphony.Orchestrator.Env.{
  Env, Event, tick_event, agent_update, worker_exit, retry_timer_fired, reload_config,
  snapshot_request, refresh_request,
}
use my_symphony.Orchestrator.Timers.{schedule_tick, milliseconds}
use my_symphony.Orchestrator.Dispatch.{poll_and_dispatch}
use my_symphony.Orchestrator.Reconcile.{reconcile, startup_terminal_cleanup}
use my_symphony.Orchestrator.Update.{on_agent_update}
use my_symphony.Orchestrator.Snapshots.{build_snapshot}
use my_symphony.Orchestrator.Retry.{on_worker_exit, on_retry_timer, on_reload}

-- New, and SetNotifier; an error is the tracker factory's.
unfoldable pub new_orchestrator : Env → Config → Text → Bool → Result Text Orchestrator
new_orchestrator env cfg template has_notifier = elim (env.new_tracker cfg) [
  | some e ↦ err e
  | none ↦ ok (record {
    cfg = cfg;
    template = template;
    state = new_runtime_state cfg.polling.interval_ms cfg.agent.max_concurrent;
    tick_timer = none;
    has_notifier = has_notifier;
    effects = [];
  })
]

-- onTick. The deferred scheduleTick takes the interval that reconciliation left, and runs last.
unfoldable pub on_tick : Env → Orchestrator → Orchestrator
on_tick env o =
    let reconciled = reconcile env o in
    schedule_tick (milliseconds reconciled.poll_interval_ms) (poll_and_dispatch env reconciled)

-- handle.
unfoldable pub handle : Env → Event → Orchestrator → Orchestrator
handle env tick_event o = on_tick env o
handle env (agent_update id msg) o = on_agent_update id msg o
handle env (worker_exit id reason error) o = on_worker_exit env id reason error o
handle env (retry_timer_fired id) o = on_retry_timer env id o
handle env (reload_config cfg tmpl) o = on_reload env cfg tmpl o
handle env refresh_request o = schedule_tick (pos 0) o
handle env snapshot_request o = effect (replies (build_snapshot env o)) o

-- Run up to its loop.
unfoldable pub start : Env → Orchestrator → Result ConfigError Orchestrator
start env o = elim (validate_dispatch o.cfg) [
  | some e ↦ err e
  | none ↦ ok (schedule_tick (pos 0) (startup_terminal_cleanup env o))
]

-- The loop of Run over the events that are delivered, each with the answers that it gets.
unfoldable pub run : List (Env × Event) → Orchestrator → Orchestrator
run [] o = o
run ((env, e) ∷ rest) o = run rest (handle env e o)

unfoldable pub stop_retries : Map RetryEntry → Orchestrator → Orchestrator
unfolding effect
stop_retries [] o = o
stop_retries ((id, e) ∷ rest) o =
    stop_retries rest (elim e.timer [ none ↦ o | some _ ↦ effect (stops_retry_timer id) o ])

unfoldable pub cancel_all : Map RunningEntry → Orchestrator → Orchestrator
unfolding effect
cancel_all [] o = o
cancel_all ((id, e) ∷ rest) o = cancel_all rest (effect (cancels id) o)

-- shutdown.
unfoldable pub shutdown : Orchestrator → Orchestrator
unfolding effect
shutdown o =
    let stopped : Orchestrator = elim o.tick_timer [
      | none ↦ o
      | some _ ↦ effect stops_tick_timer o
    ] in
    cancel_all o.running (stop_retries o.retry_attempts stopped)
