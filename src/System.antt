-- ===== src/System.antt =====
-- The parts together: the servicer over the paying client, and the verifiers whose verdicts it
-- collects.
pub mod Honest
pub mod Wire
pub mod Release
pub mod Serving
pub mod Trimming
pub mod Onchain
pub mod Mirror
pub mod Pricing
mod Tests
