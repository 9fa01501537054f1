-- ===== src/Integrity/Rows.antt =====
-- A valid row put into its table keeps the whole database consistent.
pub mod Still
pub mod Owners
pub mod Findings
