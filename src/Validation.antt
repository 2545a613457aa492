-- ===== src/Validation.antt =====
-- src/utils/validation.ts: what the options are checked for.
pub mod Checks
pub mod Accepted
pub mod Options
