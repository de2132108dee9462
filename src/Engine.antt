-- ===== src/Engine.antt =====
-- internal/engine
pub mod Errors
pub mod Template
pub mod Context
pub mod Refs
pub mod Resolver
pub mod Interpolate
pub mod Types
pub mod Trace
pub mod EventBus
pub mod Attempts
pub mod Graph
pub mod Skip
pub mod Clock
pub mod Dag
pub mod Loop
pub mod Execution
pub mod Safety
pub mod Executor
pub mod Waiting
pub mod Samples
mod ExecutorWitnesses
mod WaitingWitnesses
mod Witnesses
