-- ===== src/Analyzer.antt =====
-- src/vm/analyzer.cpp: the rules that compare a requirement with a profile, the engine that
-- collects their findings, and the run that makes the verdict.
pub mod Engine
pub mod Rules
pub mod Run
pub mod Effects
pub mod WellFormed
pub mod Findings
pub mod Sorted
pub mod Verdict
pub mod Supported
pub mod Refused
pub mod Reporting
pub mod Summary
pub mod Silence
