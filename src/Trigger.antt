-- ===== src/Trigger.antt =====
-- internal/trigger.
pub mod Cron
pub mod Webhook
pub mod Samples
mod WebhookWitnesses
mod Witnesses
