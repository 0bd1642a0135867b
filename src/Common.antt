-- ===== src/Common.antt =====
-- mios/common: the values that every layer shares.
pub mod Decimal
pub mod Dates
pub mod Errors
pub mod Floats
pub mod Ids
pub mod Json
pub mod Labels
pub mod Numerals
pub mod Numeric
pub mod Text
pub mod StateStore
