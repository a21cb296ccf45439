-- ===== src/Embeddings/Listeners.antt =====
-- The listeners of src/contexts/embeddings/infrastructure/adapters on the events of the other contexts: they queue jobs
-- (src/contexts/embeddings/infrastructure/services) or delete rows in a frame of their own.
pub mod ModelChange
pub mod Tests
use shiori_api.Documents.Aggregate as Documents
use shiori_api.KnowledgeBases.Aggregate as Bases
use shiori_api.Shared.{ℕ, Str, List, [], ◌∷◌}
use shiori_api.Embeddings.World.{M, embed_job, reembed_job, pure, run, ◌>>◌}
use shiori_api.Embeddings.Jobs.{
  enqueue, execute_delete_by_document, execute_delete_by_knowledge_base,
}

-- BullmqEmbeddingProcessingQueueService and BullmqEmbeddingReembedQueueService
unfoldable pub enqueue_embedding : ℕ → ℕ → M (Unit {0})
enqueue_embedding document_id kb = enqueue (embed_job document_id kb)

unfoldable pub enqueue_reembed : ℕ → Str → Str → M (Unit {0})
enqueue_reembed kb previous new = enqueue (reembed_job kb previous new)

-- DocumentChunkedListener, DocumentChunkingStartedListener and DocumentDeletedListener; no other event of a
-- document has a listener here.
unfoldable pub on_document_event : Documents.Event → M (Unit {0})
on_document_event (Documents.document_chunked d) = enqueue_embedding d.id d.knowledge_base_id
on_document_event (Documents.document_chunking_started d) =
    run d.knowledge_base_id (execute_delete_by_document d.id)
on_document_event (Documents.document_deleted d) =
    run d.knowledge_base_id (execute_delete_by_document d.id)
on_document_event _ = pure tt

-- KnowledgeBaseEmbeddingModelChangedListener, KnowledgeBaseReembeddingRequestedListener and
-- KnowledgeBaseDeletedListener
unfoldable pub on_base_event : Bases.Event → M (Unit {0})
on_base_event (Bases.base_model_change_requested id previous new) = enqueue_reembed id previous new
on_base_event (Bases.base_reembedding_requested id model) = enqueue_reembed id model model
on_base_event (Bases.base_deleted d) = run d.id (execute_delete_by_knowledge_base d.id)
on_base_event _ = pure tt

unfoldable pub on_base_events : List Bases.Event → M (Unit {0})
on_base_events [] = pure tt
on_base_events (e ∷ es) = do on_base_event e; on_base_events es
