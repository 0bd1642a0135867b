-- ===== src/Storage.antt =====
-- The database tables that forecasts and macro scores share the form of.
pub mod Rows
pub mod Newest
