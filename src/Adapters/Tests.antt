-- ===== src/Adapters/Tests.antt =====
-- The adapters over toy libraries: runs, and their theorems at concrete answers.
mod Paying
mod Chain
