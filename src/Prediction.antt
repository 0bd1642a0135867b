-- ===== src/Prediction.antt =====
-- mios/prediction/: what a forecast is made of.
pub mod Features
pub mod Stats
pub mod Bridge
pub mod Repo
