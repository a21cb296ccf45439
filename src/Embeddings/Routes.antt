-- ===== src/Embeddings/Routes.antt =====
-- The routes of src/contexts/retrieval and src/contexts/embeddings: the REST controllers, the resolvers of GraphQL and the
-- MCP tool of a search, with the guard and the interceptor of src/core/tenancy before them.
pub mod Served
pub mod Tests
use shiori_api.Shared.{ℕ, Bool, true, false, Option, none, some, List, Str, map}
use shiori_api.KnowledgeBases.Commands.{can_activate}
use shiori_api.KnowledgeBases.Mcp.{build_context}
use shiori_api.Embeddings.Registry.{EmbeddingModel, registry}
use shiori_api.Embeddings.World.{Worker, M, ◌>>=◌, ◌>>◌, pure, run, in_bases}
use shiori_api.Embeddings.Search.{SearchResult, execute_retrieval}

-- RetrievalSearchResultRestResponseDto and RetrievalSearchResultResponseDto
pub record SearchResponse : Type 0 where
  pub chunk_id : ℕ
  pub document_id : ℕ
  pub chunk_text : Str
  pub chunk_position : ℕ
  pub score : ℕ

-- RetrievalRestMapper
unfoldable pub to_search_response : SearchResult → SearchResponse
to_search_response r = record {
  chunk_id = r.chunk_id;
  document_id = r.document_id;
  chunk_text = r.chunk_text;
  chunk_position = r.chunk_position;
  score = r.score;
}

-- RetrievalGraphQLMapper
unfoldable pub to_search_dto : SearchResult → SearchResponse
to_search_dto r = record {
  chunk_id = r.chunk_id;
  document_id = r.document_id;
  chunk_text = r.chunk_text;
  chunk_position = r.chunk_position;
  score = r.score;
}

-- EmbeddingModelRestResponseDto and EmbeddingModelResponseDto
pub record ModelResponse : Type 0 where
  pub id : Str
  pub provider : Str
  pub dimensions : ℕ

unfoldable pub to_model_response : EmbeddingModel → ModelResponse
to_model_response m = record { id = m.id; provider = m.provider; dimensions = m.dimensions }

unfoldable pub to_model_dto : EmbeddingModel → ModelResponse
to_model_dto m = record { id = m.id; provider = m.provider; dimensions = m.dimensions }

-- EmbeddingAvailableModelsQueryHandler, and the two routes on it, which have no guard
abbrev pub available_models : List EmbeddingModel
available_models = registry

unfoldable pub list_available_models : List ModelResponse
unfolding to_model_response
list_available_models = map to_model_response available_models

unfoldable pub embedding_models : List ModelResponse
unfolding to_model_dto
embedding_models = map to_model_dto available_models

-- KnowledgeBaseContextInterceptor
unfoldable pub within_context : {A : Type 0} → Option ℕ → M A → M A
within_context none body = body
within_context (some kb) body = run kb body

module _ (w : Worker) (hash : Str → Str) (default max : ℕ) where
  -- RetrievalController.search, RetrievalQueriesResolver.retrievalSearch and RetrievalSearchMcpTool.execute
  unfoldable pub search_route : Str → Option ℕ → M (List SearchResponse)
  search_route query k = do
    results ← execute_retrieval w default max query k
    pure (map to_search_response results)

  unfoldable pub retrieval_search : Str → Option ℕ → M (List SearchResponse)
  retrieval_search query k = do
    results ← execute_retrieval w default max query k
    pure (map to_search_dto results)

  unfoldable pub search_tool : Str → Option ℕ → M (List SearchResult)
  search_tool query k = execute_retrieval w default max query k

  -- a request with its X-API-Key header: the guard, the interceptor, and the method
  unfoldable pub guarded : {A : Type 0} → Option Str → M A → M A
  guarded header body = do
    bound ← in_bases (can_activate hash false header)
    within_context bound body

  -- A call of the tool with its header. Whether nestjs-kit's MCP controller has the guard before it is a parameter;
  -- McpContextBuilder finds the knowledge base of the header, which the tool does not read.
  bind_request : Bool → Option Str → M (Option ℕ)
  bind_request true header = in_bases (can_activate hash false header)
  bind_request false header = pure none

  unfoldable pub call_search_tool : Bool → Option Str → Str → Option ℕ → M (List SearchResult)
  unfolding bind_request
  call_search_tool is_guarded header query k = do
    bound ← bind_request is_guarded header
    within_context bound (in_bases (build_context hash header) >>= λ _. search_tool query k)
