-- ===== src/Embeddings/Jobs.antt =====
-- The jobs of the queue `embeddings` (src/contexts/embeddings/infrastructure/processors), the service that embeds
-- a document, the listeners that queue jobs or delete rows, and the ports to the other contexts
-- (src/contexts/embeddings/infrastructure/adapters). Progress reports are left out.
pub mod Plan
pub mod Reembed
pub mod Success
pub mod Kept
pub mod Failure
use shiori_api.Shared.{
  ℕ, Bool, true, false, not, Option, none, some, List, [], ◌∷◌, ◌++◌, Str, if◌then◌else◌, length,
  map, str_eq,
}
use shiori_api.Exceptions.{Exception, knowledge_base_not_found, invalid_value}
use shiori_api.Tenancy.{Result, ok, err}
use shiori_api.Documents.Store.{Chunk}
use shiori_api.Documents.Queries.{find_ids}
use shiori_api.Documents.Queries.Chunks.{find_chunks}
use shiori_api.KnowledgeBases.Aggregate.{KnowledgeBase}
use shiori_api.KnowledgeBases.Queries.{find_view}
use shiori_api.KnowledgeBases.Commands.{execute_complete, execute_fail}
use shiori_api.Embeddings.Registry.{EmbeddingModel, get_or_throw}
use shiori_api.Embeddings.World.{
  Vector, Embedding, Job, embed_job, reembed_job, World, M, Worker, Action, ◌>>=◌, ◌>>◌, pure, lift,
  throw, run, reading, attempt, draw, in_bases,
}
use shiori_api.Embeddings.Storage.{
  EmbeddingAggregate, build, save_many, delete_by_document_id, delete_by_knowledge_base_id,
  delete_by_knowledge_base_id_and_model,
}

-- KnowledgeBaseEmbeddingConfigAdapter
or_no_base : ℕ → Option KnowledgeBase → M KnowledgeBase
or_no_base kb none = throw (knowledge_base_not_found kb)
or_no_base kb (some k) = pure k

unfoldable pub get_config : ℕ → M KnowledgeBase
unfolding or_no_base
get_config kb = do found ← in_bases (find_view kb); or_no_base kb found

-- `vectors[i]` and those behind
abbrev pub first_vector : List Vector → Option Vector
first_vector [] = none
first_vector (v ∷ vs) = some v

abbrev pub other_vectors : List Vector → List Vector
other_vectors [] = []
other_vectors (v ∷ vs) = vs

module _ (w : Worker) where
  -- DocumentChunkSourceAdapter.findByDocumentId
  unfoldable pub chunk_source : ℕ → M (List Chunk)
  chunk_source document_id =
      reading (λ ctx s. find_chunks w.kit.accepts_chunk document_id ctx s.documents.chunks)

  -- the metadata of a chunk's embedding
  abbrev pub metadata_for : ℕ → ℕ → Str → ℕ → Chunk → Embedding
  metadata_for document_id kb model id c = record {
    id = id;
    knowledge_base_id = kb;
    document_id = document_id;
    chunk_id = c.id;
    chunk_text = c.text;
    chunk_position = c.position;
    model = model;
    created_at = w.now;
    updated_at = w.now;
  }

  module _ (document_id kb : ℕ) (model : Str) (dimensions : ℕ) where
    unfoldable pub build_embeddings : List Chunk → List Vector → M (List EmbeddingAggregate)
    build_embeddings [] vectors = pure []
    build_embeddings (c ∷ cs) vectors = do
      id ← draw w
      a ← lift (
          build w.kit (record {
            metadata = metadata_for document_id kb model id c;
            embedding = first_vector vectors;
            dimensions = dimensions;
          }))
      rest ← build_embeddings cs (other_vectors vectors)
      pure (a ∷ rest)

    unfoldable pub embed_found : List Chunk → M ℕ
    embed_found [] = pure 0
    embed_found (c ∷ cs) = do
      vectors ← lift (w.vectors_of (map (λ (x : Chunk). x.text) (c ∷ cs)) model)
      embeddings ← build_embeddings (c ∷ cs) vectors
      save_many embeddings dimensions
      pure (length embeddings)

    -- EmbedDocumentChunksService.execute
    unfoldable pub embed_document : M ℕ
    unfolding embed_found
    embed_document = do chunks ← chunk_source document_id; embed_found chunks

  -- EmbedDocumentChunksProcessor.processEmbedDocumentChunks
  unfoldable pub process_embed : ℕ → ℕ → M (Unit {0})
  process_embed document_id kb = run kb (do
    config ← get_config kb
    model ← lift (get_or_throw config.embedding_model)
    _ ← embed_document document_id kb config.embedding_model model.dimensions
    pure tt)

  -- KnowledgeBaseReembeddingStatusAdapter; the command of a failure makes a value object of the reason.
  unfoldable pub complete : ℕ → M (Unit {0})
  complete kb = in_bases (execute_complete w.valid w.values w.now kb)

  unfoldable pub fail : ℕ → Str → M (Unit {0})
  fail kb reason =
      if w.accepts_reason reason
      then in_bases (execute_fail w.valid w.values w.now kb)
      else throw invalid_value

  unfoldable pub embed_all : ℕ → Str → ℕ → List ℕ → M (Unit {0})
  embed_all kb model dimensions [] = pure tt
  embed_all kb model dimensions (id ∷ ids) = do
    _ ← embed_document id kb model dimensions
    embed_all kb model dimensions ids

  unfoldable pub delete_previous : ℕ → Str → Str → M (Unit {0})
  delete_previous kb previous new =
      if not (str_eq previous new)
      then delete_by_knowledge_base_id_and_model kb previous
      else pure tt

  -- the try block of ReembedKnowledgeBaseProcessor.process
  unfoldable pub reembed : ℕ → Str → Str → M (Unit {0})
  reembed kb previous new = do
    model ← lift (get_or_throw new)
    delete_by_knowledge_base_id_and_model kb new
    ids ← reading (λ ctx s. ok (find_ids kb s.documents.documents))
    embed_all kb new model.dimensions ids
    delete_previous kb previous new
    complete kb

  -- the catch block
  unfoldable pub report : ℕ → Exception → M (Unit {0})
  report kb e = do fail kb (w.message e); throw e

  unfoldable pub process_reembed : ℕ → Str → Str → M (Unit {0})
  process_reembed kb previous new = run kb (attempt (reembed kb previous new) (report kb) pure)

  -- EmbedDocumentChunksProcessor.process, by the job's name
  unfoldable pub process : Job → M (Unit {0})
  process (embed_job document_id kb) = process_embed document_id kb
  process (reembed_job kb previous new) = process_reembed kb previous new

-- `queue.add`
unfoldable pub enqueue : Job → M (Unit {0})
enqueue job ctx s = (ok tt, record s { jobs = s.jobs ++ job ∷ [] })

-- DeleteEmbeddingsByDocumentCommandHandler and DeleteEmbeddingsByKnowledgeBaseCommandHandler
unfoldable pub execute_delete_by_document : ℕ → M (Unit {0})
unfolding delete_by_document_id
execute_delete_by_document document_id = delete_by_document_id document_id

unfoldable pub execute_delete_by_knowledge_base : ℕ → M (Unit {0})
unfolding delete_by_knowledge_base_id
execute_delete_by_knowledge_base kb = delete_by_knowledge_base_id kb
