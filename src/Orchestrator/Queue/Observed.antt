-- ===== src/Orchestrator/Queue/Observed.antt =====
-- What observe.go asks of the loop is answered.
use my_symphony.Base.{
  ◌≤◌, ◌≡◌, ◌∷◌, ◌∙◌, ◌<◌, ◌++◌, true, sym, refl, pos, length, false, err, arith, append_assoc, ap,
  [], List, Bool,
}
use my_symphony.Orchestrator.Env.{snapshot_request, refresh_request, Event, Env}
use my_symphony.Orchestrator.Queue.{
  offer, receive, snapshot, snapshot_unavailable, request_refresh, receive_all, has_room,
  event_capacity, Wait, System,
}
use my_symphony.Orchestrator.Queue.Delivery.{receive-event}
use my_symphony.Orchestrator.Snapshots.{build_snapshot}
use my_symphony.Orchestrator.Timers.{schedule_tick}
use my_symphony.Orchestrator.Loop.{run, handle}
use my_symphony.Orchestrator.State.{replies, effect}

-- The events of a list, each with its answers.
abbrev pub with_answers : List Env → List Event → List (Env × Event)
with_answers [] q = []
with_answers (env ∷ envs) [] = []
with_answers (env ∷ envs) (e ∷ q) = (env, e) ∷ with_answers envs q

receive_all-run :
    (envs : List Env) (q later : List Event) (s : System)
    → length envs ≡ length q
    → s.pending ≡ q ++ later
    → receive_all envs s
      ≡ record s { pending = later; orchestrator = run (with_answers envs q) s.orchestrator }
unfolding receive_all run
receive_all-run [] [] later s n h = ap (λ x. record s { pending = x }) h
receive_all-run [] (e ∷ q) later s n h = absurd (omega (arith, n))
receive_all-run (env ∷ envs) [] later s n h = absurd (omega (arith, n))
receive_all-run (env ∷ envs) (e ∷ q) later s n h =
    ap (receive_all envs) (receive-event env s e (q ++ later) h)
    ∙ receive_all-run envs q later
        (record s { pending = q ++ later; orchestrator = handle env e s.orchestrator })
        (omega (arith, n)) refl

-- The system once the loop has received what waited, and one event more.
abbrev pub once_received : System → List Event → List Env → Env → System
once_received s q envs env = receive env (receive_all envs (record s { pending = q }))

sent_is_handled :
    (s : System) (e : Event) (later : List Event) (envs : List Env) (env : Env)
    → length envs ≡ length s.pending
    → (once_received s ((s.pending ++ (e ∷ [])) ++ later) envs env).orchestrator
      ≡ handle env e (run (with_answers envs s.pending) s.orchestrator)
sent_is_handled s e later envs env n =
    let q = (s.pending ++ (e ∷ [])) ++ later in
    let waits : System = record s { pending = q } in
    let done : System = record s {
      pending = e ∷ later;
      orchestrator = run (with_answers envs s.pending) s.orchestrator;
    } in
    ap (λ x. (receive env x).orchestrator)
      (receive_all-run envs s.pending (e ∷ later) waits n
        (sym (append_assoc s.pending (e ∷ []) later)))
    ∙ ap (λ x. x.orchestrator) (receive-event env done e later refl)

offer-sent :
    (cancelled picks : Bool) (e : Event) (q : List Event)
    → (offer cancelled picks e q).1 ≡ true
    → (offer cancelled picks e q).0 ≡ q ++ (e ∷ [])
unfolding offer
offer-sent cancelled picks e q h = ground arith

offer-room :
    (picks : Bool) (e : Event) (q : List Event)
    → length q < event_capacity
    → (offer false picks e q).0 ≡ q ++ (e ∷ [])
unfolding offer has_room
offer-room picks e q h = ground arith

offer-full :
    (cancelled picks : Bool) (e : Event) (q : List Event)
    → event_capacity ≤ length q
    → (offer cancelled picks e q).1 ≡ false
unfolding offer has_room
offer-full cancelled picks e q h = ground arith

-- Once RequestRefresh has said that its request is queued, and Snapshot has sent its own, the loop
-- answers after as many rounds as events waited, and one: with a tick that is scheduled at once, and
-- with a snapshot of the state that the events before leave, whatever is posted later. A request of a
-- snapshot that is not sent is told so.
pub observers_answered :
    (s : System) (picks : Bool) (wait : Wait) (later : List Event) (envs : List Env) (env : Env)
    → length envs ≡ length s.pending
    → let before = run (with_answers envs s.pending) s.orchestrator in
      let refreshed = request_refresh s.cancelled picks s.pending in
      let asked = snapshot s.cancelled picks wait s.pending in
      (refreshed.1 ≡ true
        → (once_received s (refreshed.0 ++ later) envs env).orchestrator
          ≡ schedule_tick (pos 0) before)
      × (length s.pending < event_capacity
          → s.cancelled ≡ false
          → (once_received s (asked.0 ++ later) envs env).orchestrator
            ≡ effect (replies (build_snapshot env before)) before)
      × (event_capacity ≤ length s.pending → asked.1 ≡ err snapshot_unavailable)
unfolding request_refresh snapshot handle
observers_answered s picks wait later envs env n = (
  λ sent.
      ap (λ q. (once_received s (q ++ later) envs env).orchestrator)
        (offer-sent s.cancelled picks refresh_request s.pending sent)
      ∙ sent_is_handled s refresh_request later envs env n,
  λ room running_on.
      ap
        (λ c.
          (once_received s ((offer c picks snapshot_request s.pending).0 ++ later) envs
            env).orchestrator)
        running_on
      ∙ ap (λ q. (once_received s (q ++ later) envs env).orchestrator)
          (offer-room picks snapshot_request s.pending room)
      ∙ sent_is_handled s snapshot_request later envs env n,
  λ full. rw (offer-full s.cancelled picks snapshot_request s.pending full) refl,
)
