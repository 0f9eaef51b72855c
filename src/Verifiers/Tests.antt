-- ===== src/Verifiers/Tests.antt =====
-- The verifiers over the toy library and a Stripe that answers from a table: runs, and the theorems
-- of verifiers at concrete requests.
pub mod Evidence
mod Gate
mod Start
mod Interleaving
