-- ===== src/Workflows.antt =====
-- internal/workflow: the repository, the service and the handlers of workflows.
pub mod Tables
pub mod Database
pub mod Repository
pub mod Service
pub mod Requests
pub mod Handler
pub mod Samples
mod HandlerWitnesses
pub mod Witnesses
