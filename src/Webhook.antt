-- ===== src/Webhook.antt =====
-- util/webhook.py: the process-wide listener of the webhook endpoint.
pub mod Listener
pub mod Settling
