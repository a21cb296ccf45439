-- ===== src/KnowledgeBases.antt =====
-- The knowledge-bases context (src/contexts/knowledge-bases).
pub mod Aggregate
pub mod Store
pub mod Commands
pub mod Queries
pub mod Rest
pub mod Mcp
pub mod Graphql
pub mod Tests
