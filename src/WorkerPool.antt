-- ===== src/WorkerPool.antt =====
-- The worker pool: src/atframe/modules/worker_pool_module.cpp. The lock worker_lock makes each
-- operation on the worker list one step.
pub mod Config
pub mod Worker
pub mod Key
pub mod Resize
pub mod Select
pub mod Jobs
pub mod Background
pub mod Scaling
pub mod Life
pub mod Tests
