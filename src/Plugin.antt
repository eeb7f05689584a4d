-- ===== src/Plugin.antt =====
-- The plugin directory: manifests, their checks, and the manager that loads plugins.
pub mod Manifest
pub mod Manager
mod Tests
