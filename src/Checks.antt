-- ===== src/Checks.antt =====
-- src/mcpscan/checks/: the posture checks over parsed configs.
mod Tests
pub mod ToolScope
pub mod Pinning
pub mod Exposure
