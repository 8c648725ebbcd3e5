-- ===== src/Graph.antt =====
-- src/mcpscan/graph: the graph of what an attacker can reach, and the chains through it.
mod Tests
pub mod Model
pub mod Chain
pub mod Search
pub mod Build
