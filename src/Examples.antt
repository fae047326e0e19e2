-- ===== src/Examples.antt =====
-- Runs of the models on concrete inputs.
pub mod Pools
pub mod Shadows
pub mod Agents
pub mod Daemons
pub mod Shims
pub mod Links
pub mod Taps
pub mod JsonValues
pub mod Documents
