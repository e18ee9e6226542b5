-- ===== src/Http.antt =====
-- The HTTP API: httpapi/.
pub mod Signature
pub mod Stream
pub mod Limiter
pub mod Requests
pub mod Reads
pub mod Webhook
pub mod Logins
pub mod Settings
pub mod Runs
