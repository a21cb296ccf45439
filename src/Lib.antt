-- ===== src/Lib.antt =====
-- shiori-api: a service that stores documents per knowledge base, cuts them into chunks, embeds the chunks and
-- searches them. A request or a queued job opens a frame for one knowledge base; the command handlers
-- read and write rows through tenant repositories, queue a `chunk-document` job where a document is to
-- be chunked, and publish the events of the aggregate; the job's processor moves the document through its
-- statuses and stores the chunks.
--
-- What models what (paths from the repository's root):
-- - Shared: Boolean tests, lists and strings. A string is the list of its UTF-16 code units.
-- - Exceptions: src/core/filters/base-exception.filter.ts and the resolver of each context
--   (src/contexts/*/transport/exceptions). `Exception` has a constructor for each exception class.
-- - Tenancy: src/core/tenancy. `Context` is the ambient knowledge base, `tenant_find`, `tenant_save` and
--   `tenant_delete` the traps of the proxy. TypeORM's repository is the parameter `Repository`, with
--   what is relied on in `IsRepository`; `table` is one that meets it.
-- - Chunking: src/contexts/documents/infrastructure/services/recursive-chunking.service.ts. A private method
--   is a function of the same name in snake case (splitBySentence is split_by_sentence). The loops run
--   on the list of segments or on the length of the text as fuel, which is enough since every step
--   takes a character.
-- - Documents.Aggregate: src/contexts/documents/domain/aggregates/document.aggregate.ts. A mutator gives the new
--   document and the events that it applies, or the exception.
-- - Documents.Store: the tables of documents and chunks, the job queue, the published events and the one
--   DocumentBuilder (src/contexts/documents/domain/builders and infrastructure), and the repositories'
--   operations as actions on them. What an action wrote before it threw stays written.
-- - Documents.Commands: src/contexts/documents/application/commands, one function per handler (execute_create and so
--   on), and the loop of DeleteDocumentsByKnowledgeBaseService on fuel.
-- - Documents.Processor: src/contexts/documents/infrastructure/processors/chunk-document.processor.ts, as `begin` up to
--   the first publication and `finish` from there on; `process` runs one after the other.
-- - Documents.Interleavings: commands, the two phases of jobs and the purge of a knowledge base as steps of one
--   relation, `Trace` its closure. Documents.Store.Ownership has what a knowledge base's rows are (`owner` says which
--   knowledge base an identifier was given to) and what each operation of the store respects.
-- - Cors: src/core/config/cors-origins.ts, its two functions over an environment of three variables.
-- - Config: src/core/config/env.validation.ts, kafka.config.ts and app.config.ts. What zod says of the
--   fields is a parameter. Config.Settings: postgres.config.ts, redis.config.ts and otel.config.ts beside them, over the
--   numbers of JavaScript as a parameter.
-- - Observability: src/core/observability, the spans around a handler; a call of a bus gives a promise or throws at once.
-- - AggregateMap: scripts/generate-aggregate-module-map.ts, over a tree of files.
-- - KnowledgeBases: src/contexts/knowledge-bases (aggregate, repository with its one builder, the eight command handlers)
--   and src/core/tenancy/knowledge-base-api-key.guard.ts as `can_activate`. KnowledgeBases.Aggregate.Secrecy is about
--   what the aggregate's events and the exceptions show of a key.
-- - KnowledgeBases.Queries and Documents.Queries: the query handlers over the read repositories.
-- - KnowledgeBases.Rest and Documents.Rest: the REST controllers, a request with its header going through the guard, and
--   the frame of src/core/tenancy/knowledge-base-context.interceptor.ts. KnowledgeBases.Graphql: the mutations of
--   src/contexts/knowledge-bases/transport/graphql. KnowledgeBases.Mcp: src/core/mcp/mcp-context.builder.ts.
-- - Documents.Graphql: the resolvers of src/contexts/documents/transport/graphql. Documents.Mcp: the tools of
--   src/contexts/documents/transport/mcp, called as src/core/core.module.ts sets nestjs-kit's MCP module up. Whether the
--   kit's controller runs KnowledgeBaseApiKeyGuard is a parameter here and in Embeddings.Routes; that it does not is a
--   hypothesis of what is proved of the tools.
-- - Embeddings.World: the state of the embeddings context, the stores of the other two contexts in it. Embeddings.Storage: the
--   builder and the write repository over the table of rows and the vector tables; Embeddings.Search: the read
--   repository, the search and its handler, and the handler of src/contexts/retrieval. Embeddings.Jobs: the two jobs of
--   the queue with EmbedDocumentChunksService (src/contexts/embeddings/infrastructure/processors), as actions in the frame
--   of a knowledge base; Embeddings.Jobs.Plan has the aggregates of a job apart from the tables.
--   Embeddings.Listeners: the listeners on the events of the other contexts; Embeddings.Listeners.ModelChange follows a
--   change of the model from the command through the listener to the end of the job. Embeddings.Removal follows
--   the deletion of a knowledge base over the foreign keys of src/database/migrations to the listeners on its event.
-- - Embeddings.Routes: the routes and the tool of src/contexts/retrieval/transport and src/contexts/embeddings/transport, with
--   the guard and the interceptor before them.
-- - Embeddings.Registry: the catalogue of models and the vector tables (src/contexts/embeddings/domain,
--   infrastructure/persistence), the readiness of search, and the limit of src/contexts/retrieval.
-- - Embeddings.Batch: embed and embedBatch of
--   src/contexts/embeddings/infrastructure/services/openai-compatible-embedding.service.ts.
--
-- Parameters: nestjs-kit's value objects (which strings they take, equality, the time of `touch`), the clock, UUIDs,
-- the text of an exception's message, the paging of TypeORM's query builder, the catalogue of embedding
-- models, the embedding port, the distance of pgvector and PostgreSQL's scan in its order (over the HNSW
-- indexes of the migrations it may leave rows out), the guard of nestjs-kit's MCP controller, and the random
-- part and the hash of an API key. Identifiers and times are numbers.
--
-- Not modelled: what has no logic of its own (decorators and DTO classes, wiring, the start of telemetry,
-- health checks, columns and indexes of migrations). Progress reports of a job are left out.
pub mod Shared
pub mod Exceptions
pub mod Tenancy
pub mod AggregateMap
pub mod Chunking
pub mod Documents
pub mod KnowledgeBases
pub mod Cors
pub mod Config
pub mod Observability
pub mod Embeddings
