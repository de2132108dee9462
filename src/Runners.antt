-- ===== src/Runners.antt =====
-- internal/engine/runners: the runners that compute. What a runner logs is left out.
pub mod Compare
pub mod Fields
pub mod Items
pub mod Json
pub mod Messages
pub mod Register
mod Witnesses
