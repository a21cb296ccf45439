-- ===== src/Embeddings/Search.antt =====
-- The similarity search: EmbeddingTypeOrmReadRepository and EmbeddingSearchQueryHandler of src/contexts/embeddings, and the
-- handler and the port of src/contexts/retrieval above them. pgvector's distance is the worker's, and so is
-- the scan in its order: the migrations put an HNSW index on each vector table, which is approximate, and PostgreSQL
-- filters by knowledge base and model behind it, before the limit.
pub mod Nearest
pub mod Tests
use shiori_api.Shared.{
  ℕ, Bool, true, false, ◌&&◌, Option, none, some, List, [], ◌∷◌, ◌++◌, Str, codes, ◌==◌, filter,
  map, take,
}
use shiori_api.Exceptions.{foreign}
use shiori_api.Tenancy.{Result, ok, err, table, tenant_find}
use shiori_api.KnowledgeBases.Aggregate.{KnowledgeBase}
use shiori_api.KnowledgeBases.Queries.{status_text}
use shiori_api.Embeddings.Registry.{EmbeddingModel, get_or_throw, assert_search_ready, top_k}
use shiori_api.Embeddings.World.{
  Vector, Embedding, VectorRow, Joined, World, M, Worker, Action, ◌>>=◌, ◌>>◌, pure, lift, ambient,
  reading, embedding_columns,
}
use shiori_api.Embeddings.Storage.{
  EmbeddingBuilder, validate, table_for, fetch_vector, is_of, is_vector_of, is_row_of,
}
use shiori_api.Embeddings.Jobs.{get_config}

-- IEmbeddingSearchResult
pub record SearchResult : Type 0 where
  pub chunk_id : ℕ
  pub document_id : ℕ
  pub chunk_text : Str
  pub chunk_position : ℕ
  pub score : ℕ

-- `innerJoin` of the rows with a vector table
abbrev pub joined_with : Embedding → List VectorRow → List Joined
joined_with e vs = map (λ v. record { row = e; vector = v.embedding }) vs

unfoldable pub join : ℕ → List VectorRow → List Embedding → List Joined
join n vectors [] = []
join n vectors (e ∷ es) = joined_with e (filter (is_vector_of n e.id) vectors) ++ join n vectors es

-- the rows of a knowledge base and a model with their vectors
unfoldable pub candidates : ℕ → ℕ → Str → World → List Joined
candidates n kb model s = filter (λ j. is_of kb model j.row) (join n s.vectors s.embeddings)

module _ (w : Worker) where
  abbrev pub distance_to : Vector → Joined → ℕ
  distance_to query j = w.distance j.vector query

  abbrev pub result_of : Vector → Joined → SearchResult
  result_of query j = record {
    chunk_id = j.row.chunk_id;
    document_id = j.row.document_id;
    chunk_text = j.row.chunk_text;
    chunk_position = j.row.chunk_position;
    score = w.one_minus (distance_to query j);
  }

  -- those of a knowledge base and a model that the scan from the query visits
  unfoldable pub visited : Vector → ℕ → ℕ → Str → World → List Joined
  visited query n kb model s =
      filter (λ j. is_of kb model j.row) (w.scan query (join n s.vectors s.embeddings))

  -- `vector.join(',')`, which a vector that is `undefined` does not have
  or_no_vector : Option Vector → Result Vector
  or_no_vector none = err (foreign (codes "TypeError"))
  or_no_vector (some v) = ok v

  unfoldable pub search : Option Vector → ℕ → ℕ → Str → M (List SearchResult)
  unfolding or_no_vector
  search vector k dimensions model = do
    n ← lift (table_for dimensions)
    kb ← ambient
    query ← lift (or_no_vector vector)
    found ← reading (λ ctx s. ok (take k (visited query n kb model s)))
    pure (map (result_of query) found)

  -- EmbeddingSearchQueryHandler
  unfoldable pub execute_search : Str → ℕ → M (List SearchResult)
  execute_search text k = do
    kb ← ambient
    config ← get_config kb
    lift (assert_search_ready kb (status_text config.embedding_status))
    model ← lift (get_or_throw config.embedding_model)
    vector ← lift (w.vector_of text config.embedding_model)
    search vector k model.dimensions config.embedding_model

  -- RetrievalSearchQueryHandler, and EmbeddingSearchAdapter, which gives the results on
  unfoldable pub execute_retrieval : ℕ → ℕ → Str → Option ℕ → M (List SearchResult)
  execute_retrieval default max query k = execute_search query (top_k default max k)

-- EmbeddingTypeOrmReadRepository.findById: the row with the vector in the table of its model
unfoldable pub to_view_model : Embedding → M Joined
to_view_model entity = do
  model ← lift (get_or_throw entity.model)
  n ← lift (table_for model.dimensions)
  v ← reading (λ ctx s. ok (fetch_vector n entity.id s.vectors))
  checked ← lift (validate (record { metadata = entity; embedding = some v; dimensions = 0 }))
  pure (record { row = entity; vector = checked })

to_view_model_first : List Embedding → M (Option Joined)
unfolding to_view_model
to_view_model_first [] = pure none
to_view_model_first (entity ∷ _) = do v ← to_view_model entity; pure (some v)

unfoldable pub find_view : ℕ → M (Option Joined)
unfolding to_view_model_first
find_view id = do
  rows ←
      reading
        (λ ctx s. tenant_find embedding_columns (table (λ e. e.id)) ctx (is_row_of id) s.embeddings)
  to_view_model_first rows

to_view_model_all : List Embedding → M (List Joined)
unfolding to_view_model
to_view_model_all [] = pure []
to_view_model_all (e ∷ es) = do v ← to_view_model e; rest ← to_view_model_all es; pure (v ∷ rest)

-- EmbeddingTypeOrmReadRepository.findByCriteria, with the page that the query builder gives
unfoldable pub find_view_page : (List Embedding → List Embedding × ℕ) → M (List Joined × ℕ)
unfolding to_view_model_all
find_view_page page = do
  kb ← ambient
  (entities, total) ←
      reading (λ ctx s. ok (page (filter (λ e. e.knowledge_base_id == kb) s.embeddings)))
  items ← to_view_model_all entities
  pure (items, total)
