-- ===== src/Agent.antt =====
-- agent: the autonomous servicer.
pub mod Ports
pub mod Servicer
pub mod LlmBrief
pub mod Fakes
mod Tests
