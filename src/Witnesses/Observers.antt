-- ===== src/Witnesses/Observers.antt =====
-- The theorems on the events channel and on the HTTP handlers at concrete inputs.
use my_symphony.Go.Utf8.{text_eq, ascii}
use my_symphony.Base.{◌≡◌, ◌∷◌, ◌++◌, true, some, refl, pos, ok, false, []}
use my_symphony.Orchestrator.Queue.Delivery.{offered, received, begun, Reach-Delivers, Delivers}
use my_symphony.Server.Tracked.{summary, handle_api-standing, handle_api-calls, Fits}
use my_symphony.Go.Strings.{trim_prefix, has_prefix}
use my_symphony.Witnesses.{idle_orchestrator, first_env, busy_orchestrator}
use my_symphony.Server.{handle_api, Provider}
use my_symphony.Orchestrator.Queue.Observed.{once_received, observers_answered}
use my_symphony.Orchestrator.Env.{tick_event, refresh_request}
use my_symphony.Orchestrator.Queue.{receive, expired, offer, request_refresh, has_room, System}
use my_symphony.Orchestrator.Snapshots.{build_snapshot}
use my_symphony.Orchestrator.Timers.{schedule_tick}
use my_symphony.Orchestrator.Loop.{run}

-- A reload waits while an observer asks.
abbrev waiting : System
waiting = record {
  pending = refresh_request ∷ [];
  orchestrator = idle_orchestrator;
  cancelled = false;
}

observers_answered_example :
    (once_received waiting
      ((request_refresh false true (refresh_request ∷ [])).0 ++ tick_event ∷ [])
      (first_env ∷ [])
      first_env).orchestrator
    ≡ schedule_tick (pos 0) (run ((first_env, refresh_request) ∷ []) idle_orchestrator)
unfolding request_refresh offer has_room
observers_answered_example =
    (observers_answered waiting true expired (tick_event ∷ []) (first_env ∷ []) first_env refl).0
      refl

Reach-Delivers_example :
    Delivers idle_orchestrator
      ((first_env, refresh_request) ∷ [])
      (refresh_request ∷ [])
      (receive first_env waiting)
unfolding offer has_room
Reach-Delivers_example = Reach-Delivers (
    received [] (refresh_request ∷ []) waiting first_env refresh_request []
      (offered [] [] (record { pending = []; orchestrator = idle_orchestrator; cancelled = false })
        true refresh_request (refresh_request ∷ []) true begun refl)
      refl)

-- What a server of the busy orchestrator answers.
provider : Provider
unfolding build_snapshot
provider = record {
  snapshot = ok (build_snapshot first_env busy_orchestrator);
  request_refresh = true;
  now = 5;
}

handle_api-standing_example :
    summary (handle_api provider (ascii "GET") (ascii "/api/v1/" ++ ascii "AB-a"))
    ≡ (200, some (ascii "AB-a", ascii "running"))
unfolding text_eq provider
handle_api-standing_example =
    handle_api-standing provider first_env busy_orchestrator (ascii "AB-a") refl refl refl refl

handle_api-calls_example :
    Fits true true (handle_api provider (ascii "POST") (ascii "/api/v1/refresh"))
unfolding text_eq trim_prefix has_prefix
handle_api-calls_example = handle_api-calls provider (ascii "POST") (ascii "/api/v1/refresh")
