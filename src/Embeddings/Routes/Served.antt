-- ===== src/Embeddings/Routes/Served.antt =====
-- What the routes of a search answer to a request with an API key, and without.
use shiori_api.Shared.{
  ℕ, ◌==◌, ◌≡◌, refl, sym, subst, ap, ◌∙◌, Bool, true, false, ◌≤◌, count, arith, Option, none, some,
  List, Str, find, map, All, IsLeast, trim,
}
use shiori_api.Exceptions.{knowledge_base_unauthorized, context_missing}
use shiori_api.Tenancy.{Result, ok, err, require}
use shiori_api.KnowledgeBases.Aggregate.{KnowledgeBase, ready}
use shiori_api.KnowledgeBases.Store.{validate, has_hash, is_blank}
use shiori_api.KnowledgeBases.Commands.{can_activate}
use shiori_api.KnowledgeBases.Queries.{find_view_by_hash, to_view_model}
use shiori_api.KnowledgeBases.Mcp.{build_context}
use shiori_api.Embeddings.Registry.{EmbeddingModel, get_or_throw, top_k}
use shiori_api.Embeddings.World.{Joined, Vector, World, Worker, M, continue, pure}
use shiori_api.Embeddings.Storage.{is_of}
use shiori_api.Embeddings.Search.{
  candidates, visited, distance_to, result_of, execute_search, execute_retrieval, SearchResult,
}
use shiori_api.Embeddings.Search.Nearest.{IsScan, IsAnswered, execute_retrieval-IsAnswered}
use shiori_api.Embeddings.Routes.{
  SearchResponse, to_search_response, to_search_dto, within_context, search_route, retrieval_search,
  search_tool, guarded, call_search_tool,
}

module _ (w : Worker) (hash : Str → Str) (default max : ℕ) (s : World) (k : KnowledgeBase) where
  -- the builder of the knowledge bases has read the row
  abbrev pub bound_world : World
  bound_world = record s { bases = record s.bases { builder = k } }

  -- What a request for a search by `v` is answered, with the mapping of a result.
  pub record IsServed (m : EmbeddingModel) (v : Vector) (limit : ℕ)
      (mapping : SearchResult → SearchResponse) (out : Result (List SearchResponse) × World)
      : Type 0 where
    pub found : List Joined
    pub answer : out.0 ≡ ok (map mapping (map (result_of w v) found))
    pub least :
        IsLeast (distance_to w v) limit (visited w v m.dimensions k.id k.embedding_model s) found
    pub own : All (λ (j : Joined). is_of k.id k.embedding_model j.row ≡ true) found
    pub stored :
        (p : Joined → Bool)
        → count p found ≤ count p (candidates m.dimensions k.id k.embedding_model s)
    pub kept : out.1 ≡ bound_world

  -- the routes of a search, with a header
  abbrev pub rest_search : Str → Option ℕ → Option Str → Result (List SearchResponse) × World
  rest_search query limit header =
      guarded w hash default max header (search_route w hash default max query limit) none s

  abbrev pub graphql_search : Str → Option ℕ → Option Str → Result (List SearchResponse) × World
  graphql_search query limit header =
      guarded w hash default max header (retrieval_search w hash default max query limit) none s

  -- a call of the tool with a header, under a controller without the guard
  abbrev pub tool_search : Str → Option ℕ → Bool → Option Str → Result (List SearchResult) × World
  tool_search query limit is_guarded header =
      call_search_tool w hash default max is_guarded header query limit none s

  search_refused :
      (query : Str) (limit : Option ℕ)
      → (rest_search query limit none ≡ (err knowledge_base_unauthorized, s))
        × (graphql_search query limit none ≡ (err knowledge_base_unauthorized, s))
        × (tool_search query limit false none ≡ (err knowledge_base_unauthorized, s))
  unfolding guarded can_activate call_search_tool within_context build_context
  search_refused query limit = (refl, refl, refl)

  module _ (key : Str) (text : is_blank (trim key) ≡ false)
      (holder : find (has_hash (hash key)) s.bases.bases ≡ some k)
      (row : find (λ (x : KnowledgeBase). x.id == k.id) s.bases.bases ≡ some k)
      (view : validate k ≡ ok tt) where
    guarded-within :
        {A : Type 0} (body : M A)
        → guarded w hash default max (some key) body none s ≡ body (some k.id) bound_world
    unfolding guarded can_activate within_context
    guarded-within body = rw (text, holder, view) refl

    IsAnswered-IsServed :
        (m : EmbeddingModel) (v : Vector) (limit : ℕ) (mapping : SearchResult → SearchResponse)
        (r : Result (List SearchResult) × World)
        → IsAnswered w bound_world k row view m v limit r
        → IsServed m v limit mapping
            (continue r.0 (λ results. pure (map mapping results)) (some k.id) r.1)
    unfolding candidates visited
    IsAnswered-IsServed m v limit mapping (r, t) h = record {
      found = h.found;
      answer =
          ap (λ x. (continue x (λ results. pure (map mapping results)) (some k.id) t).0) h.answer;
      least = h.least;
      own = h.own;
      stored = h.stored;
      kept =
          ap (λ x. (continue x (λ results. pure (map mapping results)) (some k.id) t).1) h.answer
          ∙ h.kept;
    }

    tool-frameless :
        (query : Str) (limit : Option ℕ)
        → tool_search query limit false (some key) ≡ (err context_missing, bound_world)
    unfolding call_search_tool within_context build_context find_view_by_hash to_view_model
        search_tool execute_retrieval execute_search require
    tool-frameless query limit = rw (text, holder, view) refl

    -- A search over REST or GraphQL with the API key of a knowledge base that is READY, under a known model, is answered,
    -- where the port embeds its query, with stored rows of this knowledge base and its model, nearest first, up to the
    -- limit; of those that the database's scan visits, no row that is left out is nearer. Where nestjs-kit's MCP
    -- controller runs without the guard, the tool fails with this key, with KnowledgeBaseContextMissingException, as no
    -- frame is open. Without a key all three are refused with KnowledgeBaseUnauthorizedException. None writes to a table.
    -- This takes it that the scan gives rows of the table, nearest first; over an HNSW index it may leave rows out.
    pub retrieval_search-IsServed :
        IsScan w
        → (is_guarded : Bool) → is_guarded ≡ false
        → (m : EmbeddingModel) (v : Vector) (query : Str) (limit : Option ℕ)
        → k.embedding_status ≡ ready
        → get_or_throw k.embedding_model ≡ ok m
        → w.vector_of query k.embedding_model ≡ ok (some v)
        → IsServed m v
            (top_k default max limit)
            to_search_response
            (rest_search query limit (some key))
          × IsServed m v
              (top_k default max limit)
              to_search_dto
              (graphql_search query limit (some key))
          × (tool_search query limit is_guarded (some key) ≡ (err context_missing, bound_world))
          × (rest_search query limit none ≡ (err knowledge_base_unauthorized, s))
          × (graphql_search query limit none ≡ (err knowledge_base_unauthorized, s))
          × (tool_search query limit is_guarded none ≡ (err knowledge_base_unauthorized, s))
    unfolding search_route retrieval_search
    retrieval_search-IsServed scans true unguarded m v query limit status known embedded =
        ground arith
    retrieval_search-IsServed scans false unguarded m v query limit status known embedded =
        let (answered, _) =
          execute_retrieval-IsAnswered w bound_world k row view scans m v default max query limit
            status known embedded in
        let (no_rest_key, no_graphql_key, no_tool_key) = search_refused query limit in
        let out = execute_retrieval w default max query limit (some k.id) bound_world in
        let served = λ (mapping : SearchResult → SearchResponse).
          IsAnswered-IsServed m v (top_k default max limit) mapping out answered in
        (
          subst (IsServed m v (top_k default max limit) to_search_response)
              (sym (guarded-within (search_route w hash default max query limit)))
              (served to_search_response),
          subst (IsServed m v (top_k default max limit) to_search_dto)
              (sym (guarded-within (retrieval_search w hash default max query limit)))
              (served to_search_dto),
          tool-frameless query limit,
          no_rest_key,
          no_graphql_key,
          no_tool_key,
        )
