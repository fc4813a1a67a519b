-- ===== src/Intent.antt =====
-- internal/intent: the queue of intents that the workers of the release service serve.
pub mod Types
pub mod Table
pub mod Claim
pub mod Lease
pub mod Worker
