-- ===== src/Adapters.antt =====
-- src/mcpscan/adapters: the reading of host configurations.
mod Tests
pub mod Jsonc
