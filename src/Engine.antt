-- ===== src/Engine.antt =====
-- services/api/internal/engine: runs, their timelines and reports, and the in-memory repository.
pub mod Records
pub mod Timeline
pub mod Scenarios
pub mod Bundle
pub mod Memory
pub mod Service
pub mod Stripe
