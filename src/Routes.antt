-- ===== src/Routes.antt =====
-- Routes through the recorded pages of GDS2 (backends/gds2/route_graph.py).
pub mod Graph
pub mod Search
pub mod Plans
pub mod Matching
mod Tests
