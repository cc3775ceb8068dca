-- ===== src/Orchestrator.antt =====
-- internal/orchestrator: the event loop that owns all scheduling state.
-- `State` holds orchestrator/state.go and the data of orchestrator.go and events.go, `Env` what the
-- handlers ask of the world, and each further child a group of handlers with what is proved of it.
pub mod State
pub mod Env
pub mod Timers
pub mod Eligible
pub mod Order
pub mod Dispatch
pub mod Reconcile
pub mod Update
pub mod Snapshots
pub mod Retry
pub mod Loop
pub mod Shape
pub mod Claims
pub mod Slots
pub mod Starts
pub mod Boot
pub mod Lifecycle
pub mod Progress
pub mod Settings
pub mod Queue
