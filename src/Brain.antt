-- ===== src/Brain.antt =====
-- fluxguard_brain.py: the control loop, from the maps that it opens to the blocks that it ends.
pub mod State
pub mod Kernel
pub mod Detect
pub mod Blacklist
pub mod Expire
pub mod Blocks
pub mod Tick
pub mod Startup
