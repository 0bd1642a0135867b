-- ===== src/Config.antt =====
-- mios/config/: the configuration tree.
pub mod Models
pub mod Loader
