-- ===== src/Copy.antt =====
-- The two programs of prj2/src/sample/user_program together, with one socket between their devices.
pub mod Whole
