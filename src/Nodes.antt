-- ===== src/Nodes.antt =====
-- The allocation of worker nodes (diagnostic_platform/node_allocation.py).
pub mod Catalog
pub mod Inventory
pub mod Allocator
pub mod Readiness
pub mod Sound
pub mod Promotion
pub mod Run
mod Tests
