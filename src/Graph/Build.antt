-- ===== src/Graph/Build.antt =====
-- src/mcpscan/graph/build.py: the construction of the graph.
pub mod Facts
pub mod Draft
pub mod Credentials
pub mod Assemble
pub mod Good
pub mod Closed
pub mod Held
pub mod Result
