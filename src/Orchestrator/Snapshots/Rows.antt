-- ===== src/Orchestrator/Snapshots/Rows.antt =====
-- A snapshot of the orchestrator shows its whole state.
use my_symphony.Orchestrator.State.{Orchestrator}
use my_symphony.Orchestrator.Env.{Env}
