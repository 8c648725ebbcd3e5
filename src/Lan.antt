-- ===== src/Lan.antt =====
-- src/mcpscan/lan/: an authorized LAN assessment, from the manifest to the audit record.
mod Tests
pub mod Platform
pub mod Budgets
pub mod Manifest
pub mod Policy
pub mod Scope
pub mod Sanitize
pub mod Verify
pub mod Audit
pub mod Runner
