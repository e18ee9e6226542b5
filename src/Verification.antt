-- ===== src/Verification.antt =====
-- services/api/internal/verification/contract.go: signed deliveries, the bundled merchant that
-- receives them, and the relay that injects a fault between the two. `hmac key message`, the
-- HMAC-SHA256 of the standard library, is a parameter; a `Signer` is its secret.
pub mod Signing
pub mod Merchant
pub mod Relay
pub mod Reference
