-- ===== src/Orchestrator/Lifecycle/Refines.antt =====
-- The loop of internal/orchestrator implements the life of an issue.
use my_symphony.Orchestrator.Env.{Env}
use my_symphony.Orchestrator.State.{Orchestrator}
use my_symphony.Config.{Config}
