-- ===== src/Adapters.antt =====
-- packages/adapters: the clients that reach the verifiers and the chain.
pub mod VerifierClient
pub mod EntrypointArgs
pub mod Patterns
pub mod ChainClient
mod Tests
