-- ===== src/Tests.antt =====
-- Concrete runs of the modelled code, at which the theorems are applied.
mod QueueRuns
mod ReasoningRuns
mod StreamRuns
mod ControllerRuns
mod SchedulerRuns
mod LogRuns
mod DaemonRuns
mod MemorizeRuns
mod ServerRuns
mod LifecycleRuns
mod LimitRuns
mod StateRuns
mod EngineRuns
mod ObjectiveRuns
mod MetricRuns
mod ModelRuns
mod ChatRuns
mod VerifierRuns
