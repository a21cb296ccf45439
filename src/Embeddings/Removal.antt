-- ===== src/Embeddings/Removal.antt =====
-- The deletion of a knowledge base over the tables of all contexts: the handler of src/contexts/knowledge-bases, the foreign
-- keys that the migrations declare (src/database/migrations), and the listeners on its event.
pub mod Tables
pub mod Outcome
pub mod Tests
use shiori_api.Shared.{ℕ, Bool, not, ◌||◌, List, ◌==◌, filter, find}
use shiori_api.Documents.Aggregate.{Document}
use shiori_api.Documents.Store.{Chunk}
use shiori_api.Tenancy.{ok}
use shiori_api.KnowledgeBases.Commands.{execute_delete}
use shiori_api.Embeddings.World.{Worker, Embedding, World, M, ◌>>=◌, ◌>>◌, in_bases}
use shiori_api.Embeddings.Storage.{is_some, delete_rows}

-- FK_documents_knowledge_base_id: the rows that go with the row of a knowledge base
unfoldable pub documents_of_base : ℕ → List Document → List Document
documents_of_base kb = filter (λ d. d.knowledge_base_id == kb)

-- FK_chunks_document_id: those that go with documents
unfoldable pub chunks_of_documents : List Document → List Chunk → List Chunk
chunks_of_documents gone =
    filter (λ c. is_some (find (λ (d : Document). d.id == c.document_id) gone))

-- FK_embeddings_document_id and FK_embeddings_chunk_id
unfoldable pub names_gone : List Document → List Chunk → Embedding → Bool
names_gone documents chunks e =
    is_some (find (λ (d : Document). d.id == e.document_id) documents)
    || is_some (find (λ (c : Chunk). c.id == e.chunk_id) chunks)

-- What a deletion from `knowledge_bases` takes from the other tables.
unfoldable pub cascade : ℕ → World → World
cascade kb s =
    let documents = documents_of_base kb s.documents.documents in
    let chunks = chunks_of_documents documents s.documents.chunks in
    delete_rows (names_gone documents chunks) (record s {
      documents = record s.documents {
        documents = filter (λ d. not (d.knowledge_base_id == kb)) s.documents.documents;
        chunks =
            filter (λ c. not (is_some (find (λ (d : Document). d.id == c.document_id) documents)))
              s.documents.chunks;
      };
    })

-- DeleteKnowledgeBaseCommandHandler, with what goes along in the database; its event is published behind the deletion.
unfoldable pub remove_knowledge_base : Worker → ℕ → M (Unit {0})
remove_knowledge_base w id = do
  in_bases (execute_delete w.valid w.values w.now id)
  (λ ctx s. (ok tt, cascade id s))
