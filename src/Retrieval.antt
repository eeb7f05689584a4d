-- ===== src/Retrieval.antt =====
-- The retrieval directory: the fusion of vector and metadata results, and the retriever that calls it.
pub mod Fusion
pub mod Retriever
pub mod Unmapped
mod Tests
