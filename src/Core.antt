-- ===== src/Core.antt =====
-- include/sai/core and src/core.
pub mod Error
pub mod TypeId
pub mod Registry
