-- ===== src/Trust.antt =====
-- src/mcpscan/trust: what an agent's tools are trusted with.
mod Tests
pub mod Model
pub mod Factors
pub mod Relationships
pub mod Profiles
pub mod Shared
