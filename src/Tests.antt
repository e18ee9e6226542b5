-- ===== src/Tests.antt =====
-- The theorems at concrete inputs.
mod Auth
mod Data
mod Http
mod Logins
mod Outbox
mod Runs
mod Webhooks
mod Relay
mod Worker
