-- ===== src/Core/Tests.antt =====
-- A toy signature library that keeps the promises of `IsLawful`, runs of packages/core over it,
-- and the theorems at concrete data.
pub mod Toy
mod Signing
mod Voting
mod Fakes
