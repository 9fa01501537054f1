-- ===== src/Integrity/Operations.antt =====
-- Every operation of the two services keeps the database consistent.
pub mod Queries
pub mod Claims
pub mod Evidence
pub mod Links
pub mod Runs
pub mod Sessions
