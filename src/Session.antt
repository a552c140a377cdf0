-- ===== src/Session.antt =====
-- The business session of a worker (diagnostic_platform/runtime/worker_runtime.py).
pub mod Worker
pub mod Registry
pub mod State
pub mod Lifecycle
pub mod Orchestrator
pub mod Tests
