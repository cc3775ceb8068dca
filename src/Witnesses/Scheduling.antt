-- ===== src/Witnesses/Scheduling.antt =====
-- The scheduling theorems at the concrete inputs.
use my_symphony.Base.{
  List, leb_ℤ, ◌⊎◌, ◌≤◌, ◌≡◌, ◌∷◌, ◌↔◌, ◌+◌, ◌*◌, true, some, refl, pos, none, length, false, arith,
  [], All,
}
use my_symphony.Orchestrator.Update.Activity.{
  update_all_lem, update_all, messages, Holds, charge, total_tokens, on_agent_update_lem,
}
use my_symphony.Orchestrator.Order.{sort_for_dispatch, dispatch_less}
use my_symphony.Orchestrator.Update.{on_agent_update}
use my_symphony.Orchestrator.Reconcile.{
  reconcile, startup_terminal_cleanup, refresh_all, cleanup_all,
}
use my_symphony.Orchestrator.State.{
  global_available, starts_tick_timer, no_totals, new_runtime_state, Orchestrator,
}
use my_symphony.Orchestrator.Boot.{within_limit, one_worker, claims_exact, IsBooted}
use my_symphony.Config.Lookups.{validate_dispatch_iff, prompt-override, IsDispatchable}
use my_symphony.Config.{validate_dispatch, prompt_for_state, has_prompt_override}
use my_symphony.Go.Strings.{trim_space, to_lower}
use my_symphony.Domain.Keys.{workspace_key_safe, workspace_key, IsKeyRune, IsKeyOf}
use my_symphony.Witnesses.{
  history, idle_orchestrator, small_config, message_of, issue_of, issue_b, issue_a, first_env,
  entry_a, busy_orchestrator,
}
use my_symphony.Orchestrator.Starts.Handlers.{all_ends}
use my_symphony.Orchestrator.Loop.{handle, run, start, new_orchestrator}
use my_symphony.Orchestrator.Timers.Backoff.{doubling, least, retry_delay_lem}
use my_symphony.Orchestrator.Order.Laws.{
  IsOrdered, sort_for_dispatch_lem, dispatch_less_iff, Before,
}
use my_symphony.Orchestrator.Claims.{ClaimAt}
use my_symphony.Orchestrator.Timers.{schedule_tick, retry_delay}
use my_symphony.Orchestrator.Shape.{SameKeys}
use my_symphony.Go.Utf8.{pieces, ascii, text_eq, is_blank, Text}
use my_symphony.Domain.{normalize_state}
use my_symphony.Orchestrator.Reconcile.Marks.{marked, refresh_all-drops}
use my_symphony.Orchestrator.Env.{AgentEvent, tick_event, exit_abnormal}
use my_symphony.Orchestrator.Eligible.{is_terminal_state, contains_normalized}
use my_symphony.Orchestrator.Reconcile.Keys.{reconcile-SameKeys}
use my_symphony.Orchestrator.Retry.{on_worker_exit}
use my_symphony.Orchestrator.Retry.Exits.{on_worker_exit_lem}
use my_symphony.Orchestrator.Starts.{bit, starts}
use my_symphony.Go.Maps.{delete, put, has, get}
use my_symphony.Orchestrator.Progress.Ticks.{handle-Answered, Answered}

-- What the tests compute with.
tools : Unit {0}
unfolding new_orchestrator start validate_dispatch startup_terminal_cleanup cleanup_all
    schedule_tick new_runtime_state is_blank text_eq trim_space get put delete
tools = tt

booted : Orchestrator
unfolding tools
booted = record idle_orchestrator {
  tick_timer = some (pos 0);
  effects = starts_tick_timer (pos 0) ∷ [];
}

boot : IsBooted first_env small_config [] false booted
unfolding booted tools
boot = record { created = idle_orchestrator; is_new = refl; is_started = refl }

claims_exact_example : ClaimAt (ascii "b") (run history booted).state
claims_exact_example = claims_exact boot history (ascii "b")

one_worker_example :
    starts (ascii "b") (run history booted).effects
    ≡ all_ends (ascii "b") history booted + bit (has (ascii "b") (run history booted).running)
one_worker_example = one_worker boot history (ascii "b")

within_limit_example : length (run history booted).running ≤ 1
within_limit_example = within_limit boot history 1 refl (omega arith) (tt, (tt, (tt, (tt, tt))))

reconcile-SameKeys_example : SameKeys busy_orchestrator (reconcile first_env busy_orchestrator)
reconcile-SameKeys_example = reconcile-SameKeys first_env busy_orchestrator

refresh_all-drops_example :
    get
      (ascii "a")
      (refresh_all
        (issue_b ∷ issue_of (ascii "a") (ascii "done") (pos 2) ∷ [])
        busy_orchestrator).running
    ≡ some (marked true entry_a)
unfolding tools is_terminal_state contains_normalized normalize_state to_lower
refresh_all-drops_example =
    refresh_all-drops (issue_b ∷ []) [] (issue_of (ascii "a") (ascii "done") (pos 2)) entry_a
      busy_orchestrator true (refl, tt) refl refl refl refl

on_worker_exit_lem_example :
    has
      (ascii "a")
      (on_worker_exit first_env (ascii "a") exit_abnormal none busy_orchestrator).running
    ≡ false
unfolding tools
on_worker_exit_lem_example =
    (on_worker_exit_lem first_env (ascii "a") exit_abnormal none entry_a busy_orchestrator refl).0

retry_delay_lem_example :
    retry_delay false (pos 3) (pos 300_000) ≡ pos (least (doubling 2) 300_000 * 1_000_000)
retry_delay_lem_example = (retry_delay_lem 2 300_000 (omega arith)).0

sort_for_dispatch_lem_example : IsOrdered (sort_for_dispatch (issue_a ∷ issue_b ∷ []))
sort_for_dispatch_lem_example = (sort_for_dispatch_lem (issue_a ∷ issue_b ∷ [])).1

dispatch_less_iff_example : (dispatch_less issue_b issue_a ≡ true) ↔ Before issue_b issue_a
dispatch_less_iff_example = dispatch_less_iff issue_b issue_a

on_agent_update_lem_example :
    total_tokens
      (on_agent_update (ascii "a") (message_of (ascii "hi")) busy_orchestrator).claude_totals
    ≡ charge (message_of (ascii "hi")).usage (total_tokens no_totals)
unfolding tools
on_agent_update_lem_example =
    (on_agent_update_lem (ascii "a") (ascii "b") (message_of (ascii "hi")) entry_a busy_orchestrator
      refl refl).2

told_events : List AgentEvent
told_events = message_of (ascii "x") ∷ message_of [] ∷ message_of (ascii "y") ∷ []

update_all_lem_example :
    Holds (ascii "a") (update_all (ascii "a") told_events busy_orchestrator) (messages told_events)
unfolding tools
update_all_lem_example = update_all_lem (ascii "a") told_events entry_a busy_orchestrator refl refl

validate_dispatch_iff_example :
    (validate_dispatch small_config ≡ none) ↔ IsDispatchable small_config
validate_dispatch_iff_example = validate_dispatch_iff small_config

prompt-override_example :
    ((has_prompt_override small_config (ascii "Todo") ≡ false)
      × (prompt_for_state small_config (ascii "Todo") (ascii "body") ≡ ascii "body"))
    ⊎ ((has_prompt_override small_config (ascii "Todo") ≡ true)
        × ((default : Text)
            → prompt_for_state small_config (ascii "Todo") default
              ≡ prompt_for_state small_config (ascii "Todo") (ascii "body"))
        × (is_blank (prompt_for_state small_config (ascii "Todo") (ascii "body")) ≡ false))
prompt-override_example = prompt-override small_config (ascii "Todo") (ascii "body")

workspace_key_safe_example :
    IsKeyOf (pieces (ascii "../etc")) (workspace_key (ascii "../etc"))
    × All IsKeyRune (workspace_key (ascii "../etc"))
workspace_key_safe_example = workspace_key_safe (ascii "../etc")

handle-Answered_example :
    (leb_ℤ (global_available (handle first_env tick_event booted).state) (pos 0) ≡ true)
    ⊎ All (Answered (handle first_env tick_event booted)) (issue_a ∷ issue_b ∷ [])
unfolding tools run booted
handle-Answered_example = handle-Answered boot [] first_env (issue_a ∷ issue_b ∷ []) refl refl
