-- ===== src/Orchestrator/Queue.antt =====
-- The events channel of internal/orchestrator: the select of `post`, those of observe.go with their
-- default, and the loop of Run that receives. Each select is told what it picks where both the
-- channel and the end of the root context are ready.
pub mod Delivery
pub mod Observed
use my_symphony.Go.Utf8.{Text}
use my_symphony.Orchestrator.Env.{snapshot_request, refresh_request, Event, Env}
use my_symphony.Base.{
  ◌∷◌, ◌||◌, ◌++◌, ◌&&◌, ℕ, true, some, ok, not, none, ltb, length, if◌then◌else◌, false, err, [],
  Result, Option, List, Bool,
}
use my_symphony.Domain.Snapshot.{Snapshot}
use my_symphony.Orchestrator.State.{Orchestrator}
use my_symphony.Orchestrator.Loop.{handle}

-- The buffer of `make(chan Event, 256)`.
abbrev pub event_capacity : ℕ
event_capacity = 256

unfoldable pub has_room : List Event → Bool
has_room q = ltb (length q) event_capacity

-- post: `none` while it blocks; the Boolean says whether the event was sent.
unfoldable pub post : Bool → Bool → Event → List Event → Option (List Event × Bool)
post cancelled picks_send e q =
    if has_room q && (not cancelled || picks_send)
    then some (q ++ (e ∷ []), true)
    else if cancelled
    then some (q, false)
    else none

-- A select that sends an event, that the end of the root context or the default ends otherwise.
unfoldable pub offer : Bool → Bool → Event → List Event → List Event × Bool
offer cancelled picks_send e q =
    if has_room q && (not cancelled || picks_send) then (q ++ (e ∷ []), true) else (q, false)

-- RequestRefresh.
unfoldable pub request_refresh : Bool → Bool → List Event → List Event × Bool
request_refresh cancelled picks_send q = offer cancelled picks_send refresh_request q

-- How the wait of Snapshot for its answer ends.
pub data Wait : Type 0 where
  answered : Snapshot → Wait
  expired : Wait
  stopped : Wait

pub data SnapshotError : Type 0 where
  snapshot_timeout : SnapshotError
  snapshot_unavailable : SnapshotError

unfoldable pub of_wait : Wait → Result SnapshotError Snapshot
of_wait (answered snap) = ok snap
of_wait expired = err snapshot_timeout
of_wait stopped = err snapshot_unavailable

-- Snapshot.
unfoldable pub snapshot :
    Bool → Bool → Wait → List Event → List Event × Result SnapshotError Snapshot
snapshot cancelled picks_send wait q =
    let (sent_to, sent) = offer cancelled picks_send snapshot_request q in
    (sent_to, if sent then of_wait wait else err snapshot_unavailable)

-- The loop and its channel.
pub record System : Type 0 where
  pub pending : List Event
  pub orchestrator : Orchestrator
  pub cancelled : Bool

-- One round of the loop of Run that receives an event.
unfoldable pub receive : Env → System → System
receive env s = elim s.pending [
  | [] ↦ s
  | e ∷ rest ↦ record s { pending = rest; orchestrator = handle env e s.orchestrator }
]

-- Rounds one after the other, each with its answers.
unfoldable pub receive_all : List Env → System → System
receive_all [] s = s
receive_all (env ∷ envs) s = receive_all envs (receive env s)
