-- ===== src/Discovery.antt =====
-- src/mcpscan/discovery/: what is listening, and how far it can be reached.
mod Tests
pub mod Reach
