-- ===== src/Verifiers.antt =====
-- verifiers: a verifier's decision, its evidence sources, and the paid HTTP route in front of it.
pub mod Verdict
pub mod Verifier
pub mod CashflowSource
pub mod Stripe
pub mod Server
pub mod Environment
pub mod Tests
