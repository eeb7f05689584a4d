-- ===== src/Embedding.antt =====
-- The embedding directory: the cache of features.
pub mod FeatureCache
mod Tests
