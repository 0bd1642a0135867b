-- ===== src/Common/Labels.antt =====
-- mios/common/labels.py: `RunStatus`, how a run ended, and `Frequency`.
pub data RunStatus : Type 0 where
  success degraded failed skipped : RunStatus

-- `Frequency`, how often a series is published.
pub data Frequency : Type 0 where
  daily weekly monthly quarterly irregular : Frequency
