-- ===== src/Engine.antt =====
-- `DPIEngine` of include/dpi_engine.h and src/dpi_engine.cpp, whose threads are in the modules below.
pub mod Output
pub mod Swapped
pub mod Pipeline
pub mod Places
pub mod Moves
pub mod Drain
pub mod Workers
pub mod Sizes
pub mod Phases
pub mod Finding
pub mod Progress
pub mod Stopping
pub mod Turns
pub mod Work
pub mod Stranded
pub mod Lines
pub mod Order
pub mod FlowOrder
pub mod Stats
pub mod Api
pub mod Counted
pub mod Shutdown
