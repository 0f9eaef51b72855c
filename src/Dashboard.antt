-- ===== src/Dashboard.antt =====
-- dashboard/lib: the views of the committed ledger.
pub mod Types
pub mod Ledger
pub mod Format
pub mod Chain
pub mod Views
pub mod Demo
mod Tests
