-- ===== src/Drift.antt =====
-- src/mcpscan/drift/: comparing a posture snapshot with a baseline.
mod Tests
pub mod Model
pub mod Facts
pub mod Classify
pub mod Diff
pub mod Staleness
pub mod Snapshot
pub mod Baseline
