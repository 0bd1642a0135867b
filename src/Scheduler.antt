-- ===== src/Scheduler.antt =====
-- mios/scheduler: circuit breakers, retries and the jobs that are due.
pub mod Breaker
pub mod Retry
pub mod Jobs
pub mod RateLimit
