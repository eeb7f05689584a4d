-- ===== src/Runtime.antt =====
-- include/sai/runtime and src/runtime: task graphs and the pools that run them.
pub mod TaskGraph
pub mod WorkerPool
mod Tests
