-- ===== src/Embeddings.antt =====
-- The embeddings context (src/contexts/embeddings) and the limit of a retrieval (src/contexts/retrieval).
pub mod Registry
pub mod Batch
pub mod Routes
pub mod Removal
pub mod World
pub mod Storage
pub mod Jobs
pub mod Search
pub mod Tests
pub mod Listeners
