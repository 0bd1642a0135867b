-- ===== src/Tests.antt =====
-- The theorems at inputs that meet their hypotheses, and runs of the definitions.
mod Planner
mod Store
mod Validation
mod Scheduling
mod Raw
mod Figures
mod Features
mod Metrics
mod Calendar
mod Collector
mod Forecasts
mod Stored
mod Config
mod Verify
mod Parsers
mod Ids
