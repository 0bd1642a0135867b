-- ===== src/Analysis.antt =====
-- mios/analysis/: macro scores and the views built on them.
pub mod Records
pub mod Macro
pub mod Known
pub mod Accounts
pub mod Contradictions
pub mod Bounds
pub mod Repo
pub mod Run
