-- ===== src/Analyzer/Rules.antt =====
-- The rules of src/vm/analyzer.cpp, by what they look at.
pub mod Size
pub mod Bounds
pub mod Alignment
pub mod Placement
pub mod Protection
pub mod Memory
