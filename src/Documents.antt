-- ===== src/Documents.antt =====
-- The documents context (src/contexts/documents): the aggregate, its repositories, the command
-- handlers and the chunking processor.
pub mod Aggregate
pub mod Store
pub mod Commands
pub mod Processor
pub mod Interleavings
pub mod Queries
pub mod Rest
pub mod Mcp
pub mod Graphql
pub mod Tests
