-- ===== src/Core.antt =====
-- packages/core: the verdict that the parts of the system exchange, its signed bytes, the quorum
-- and the in-memory test doubles.
pub mod Utf8
pub mod Types
pub mod Crypto
pub mod Sign
pub mod Quorum
pub mod Ports
pub mod Fakes
pub mod Tests
