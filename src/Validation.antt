-- ===== src/Validation.antt =====
-- mios/validation/: forecasts and releases against what was published.
pub mod Scoring
pub mod Releases
pub mod Metrics
