-- ===== src/Orchestrator/Lifecycle.antt =====
-- The life of an issue as internal/orchestrator promises it, apart from the maps that keep it.
pub mod Moves
pub mod Refines
use my_symphony.Orchestrator.Env.{
  ExitReason, Env, Event, tick_event, worker_exit, retry_timer_fired,
}
use my_symphony.Orchestrator.State.{RuntimeState}
use my_symphony.Go.Utf8.{Text, text_eq}
use my_symphony.Go.Maps.{has}
use my_symphony.Base.{◌≡◌, ◌∷◌, true, if◌then◌else◌, false, [], Option, List, Bool}

pub data Status : Type 0 where
  unclaimed : Status
  running : Status
  retrying : Status

-- Where an issue is in the state of the orchestrator.
abbrev pub status : Text → RuntimeState → Status
status id s =
    if has id s.running then running else if has id s.retry_attempts then retrying else unclaimed

-- Whether an event has to move an issue: the end of its worker, the firing of its retry timer.
abbrev pub must_move : Text → Event → Status → Bool
must_move id (worker_exit k _ _) running = text_eq k id
must_move id (retry_timer_fired k) retrying = text_eq k id
must_move _ _ _ = false

-- The steps of the life of one issue, each under the event that makes it.
pub data Step (id : Text) : Event → Status → Status → Type 0 where
  started : Step id tick_event unclaimed running
  released :
      (k : Text) (reason : ExitReason) (er : Option Text)
      → text_eq k id ≡ true
      → Step id (worker_exit k reason er) running unclaimed
  queued :
      (k : Text) (reason : ExitReason) (er : Option Text)
      → text_eq k id ≡ true
      → Step id (worker_exit k reason er) running retrying
  resumed : (k : Text) → text_eq k id ≡ true → Step id (retry_timer_fired k) retrying running
  dropped : (k : Text) → text_eq k id ≡ true → Step id (retry_timer_fired k) retrying unclaimed
  requeued : (k : Text) → text_eq k id ≡ true → Step id (retry_timer_fired k) retrying retrying
  unmoved : (e : Event) (s : Status) → must_move id e s ≡ false → Step id e s s

-- A life over a history of events.
pub data Lives (id : Text) : List (Env × Event) → Status → Status → Type 0 where
  lives_on : (s : Status) → Lives id [] s s
  steps :
      (env : Env) (e : Event) (rest : List (Env × Event)) (s t u : Status)
      → Step id e s t
      → Lives id rest t u
      → Lives id ((env, e) ∷ rest) s u
