-- ===== src/Ai.antt =====
-- internal/ai: the validation of a workflow that the language model generated.
pub mod Enrich
pub mod Witnesses
