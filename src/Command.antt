-- ===== src/Command.antt =====
-- The command line programs around the engine and the parsers.
pub mod Dpi
pub mod Configured
pub mod Simple
pub mod Inspected
pub mod Analyzer
pub mod Summary
