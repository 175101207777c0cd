-- ===== src/Webhooks.antt =====
-- app/services/webhooks.py: the outbox of job events, the endpoints, and the dispatcher.
pub mod Outbox
pub mod Uniqueness
pub mod Endpoints
pub mod Defaults
pub mod Fitting
pub mod Changes
pub mod Managed
pub mod Reply
pub mod Dispatch
pub mod Attempts
pub mod Claims
pub mod Settling
pub mod Turns
pub mod Delivery
