-- ===== src/User.antt =====
-- The C library of the user programs.
pub mod Strings
pub mod Numbers
