-- ===== src/Inventory.antt =====
-- src/mcpscan/inventory: what AI systems exist on the machine.
mod Tests
pub mod Model
pub mod Classify
