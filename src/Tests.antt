-- ===== src/Tests.antt =====
-- Sample inputs, their verdicts, and the theorems at these inputs.
pub mod Samples
pub mod Verdicts
mod Examples
mod Basics
mod Arenas
mod Documents
mod Profiles
mod Bundles
mod Layouts
