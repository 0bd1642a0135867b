-- ===== src/Series.antt =====
-- mios/series: planning, storing and reading vintage-keyed observations.
pub mod Planner
pub mod Repo
pub mod Normalize
pub mod Calendar
pub mod Registry
pub mod Parsers
