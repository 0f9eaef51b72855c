-- ===== src/Core/Fakes.antt =====
-- packages/core/src/fakes.ts: the in-memory clients. A client is its state, and a call gives its
-- answer with the state after it.
pub mod Payment
pub mod Chain
pub mod Brief
