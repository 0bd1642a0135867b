-- ===== src/Ingestion.antt =====
-- mios/ingestion: fetching, and keeping what was fetched.
pub mod RawStore
pub mod Health
pub mod Collector
pub mod Verify
