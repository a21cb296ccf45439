-- ===== src/Embeddings/Search/Nearest.antt =====
-- What a search answers: EmbeddingSearchQueryHandler and RetrievalSearchQueryHandler.
use shiori_api.Shared.{
  ℕ, ◌≡◌, ◌≢◌, ◌≤◌, refl, sym, subst, filter-holds, true, false, Option, none, some, List, Str,
  codes, ◌==◌, find, map, All, IsLeast, take-IsLeast_sorted, filter-IsSortedFrom, IsSortedFrom,
  take-All, count, count-filter, take, Bool, ◌&&◌, ◌∙◌, ltb→ge, arith, str_eq,
}
use shiori_api.Exceptions.{search_not_ready, context_missing}
use shiori_api.Tenancy.{Result, ok, err, IfOk, require}
use shiori_api.KnowledgeBases.Aggregate.{
  KnowledgeBase, EmbeddingStatus, ready, reembedding, unsuccessful,
}
use shiori_api.KnowledgeBases.Store.{validate}
use shiori_api.KnowledgeBases.Queries
use shiori_api.KnowledgeBases.Queries.{status_text, find_view}
use shiori_api.Embeddings.Registry.{
  EmbeddingModel, get_or_throw, get_or_throw-IsModel, IsModel, assert_search_ready, top_k,
}
use shiori_api.Embeddings.World.{Joined, Vector, World, Worker}
use shiori_api.Embeddings.Storage.{table_for, is_of}
use shiori_api.Embeddings.Jobs.{get_config}
use shiori_api.Embeddings.Search.{
  SearchResult, candidates, join, visited, distance_to, result_of, search, execute_search,
  execute_retrieval,
}

pub known-IsModel : (id : Str) (m : EmbeddingModel) → get_or_throw id ≡ ok m → IsModel id m
known-IsModel id m h = subst (IfOk (IsModel id)) h (get_or_throw-IsModel id).0

pub table_for-model :
    (id : Str) (m : EmbeddingModel)
    → get_or_throw id ≡ ok m
    → table_for m.dimensions ≡ ok m.dimensions
unfolding table_for
table_for-model id m h = rw (((known-IsModel id m h).storable).has_table) refl

pub candidates-All :
    (n kb : ℕ) (model : Str) (s : World)
    → All (λ (j : Joined). is_of kb model j.row ≡ true) (candidates n kb model s)
unfolding candidates
candidates-All n kb model s = filter-holds _ (join n s.vectors s.embeddings)

top_k-max : (default max : ℕ) (limit : Option ℕ) → top_k default max limit ≤ max
unfolding top_k
top_k-max default max none = ground (arith, ltb→ge max default)
top_k-max default max (some k) = ground (arith, ltb→ge max k)

not_ready :
    (status : EmbeddingStatus)
    → status ≢ ready
    → str_eq (status_text status) (codes "READY") ≡ false
unfolding status_text
not_ready ready busy = elim (busy refl) [ ]
not_ready reembedding busy = refl
not_ready unsuccessful busy = refl

-- What PostgreSQL and pgvector say of a scan in the order of the distance: it gives rows of the table, each at most
-- once, nearest first. It may leave rows out.
pub record IsScan (w : Worker) : Type 0 where
  pub rows :
      (query : Vector) (js : List Joined) (p : Joined → Bool)
      → count p (w.scan query js) ≤ count p js
  pub ordered :
      (query : Vector) (js : List Joined) → IsSortedFrom (distance_to w query) 0 (w.scan query js)

module _ (w : Worker) (s : World) (k : KnowledgeBase)
    (row : find (λ (x : KnowledgeBase). x.id == k.id) s.bases.bases ≡ some k)
    (view : validate k ≡ ok tt) where
  -- the builder of the knowledge bases has read the row
  abbrev pub read_base : World
  read_base = record s { bases = record s.bases { builder = k } }

  pub get_config-row : (ctx : Option ℕ) → get_config k.id ctx s ≡ (ok k, read_base)
  unfolding get_config find_view Queries.to_view_model
  get_config-row ctx = rw (row, view) refl

  -- What a search for `v` answers: the least are those of the rows that the scan visits.
  pub record IsAnswered (m : EmbeddingModel) (v : Vector) (limit : ℕ)
      (out : Result (List SearchResult) × World) : Type 0 where
    pub found : List Joined
    pub answer : out.0 ≡ ok (map (result_of w v) found)
    pub least :
        IsLeast (distance_to w v) limit (visited w v m.dimensions k.id k.embedding_model s) found
    pub own : All (λ (j : Joined). is_of k.id k.embedding_model j.row ≡ true) found
    pub stored :
        (p : Joined → Bool)
        → count p found ≤ count p (candidates m.dimensions k.id k.embedding_model s)
    pub kept : out.1 ≡ read_base

  visited-stored :
      IsScan w
      → (v : Vector) (n : ℕ) (p : Joined → Bool)
      → count p (visited w v n k.id k.embedding_model s)
        ≤ count p (candidates n k.id k.embedding_model s)
  unfolding visited candidates
  visited-stored scans v n p =
      let own : Joined → Bool = λ j. is_of k.id k.embedding_model j.row in
      let js = join n s.vectors s.embeddings in
      omega (
        arith,
        count-filter p own (w.scan v js),
        count-filter p own js,
        scans.rows v js (λ j. own j && p j),
      )

  search-found :
      (m : EmbeddingModel) (v : Vector) (limit : ℕ)
      → get_or_throw k.embedding_model ≡ ok m
      → search w (some v) limit m.dimensions k.embedding_model (some k.id) read_base ≡ (
        ok (
            map
              (result_of w v)
              (take limit (visited w v m.dimensions k.id k.embedding_model read_base))),
        read_base,
      )
  unfolding search require
  search-found m v limit known = rw (table_for-model k.embedding_model m known) refl

  search-IsAnswered :
      IsScan w
      → (m : EmbeddingModel) (v : Vector) (limit : ℕ) → get_or_throw k.embedding_model ≡ ok m
      → IsAnswered m v limit
          (search w (some v) limit m.dimensions k.embedding_model (some k.id) read_base)
  unfolding visited
  search-IsAnswered scans m v limit known =
      let own : Joined → Bool = λ j. is_of k.id k.embedding_model j.row in
      let scanned = w.scan v (join m.dimensions s.vectors s.embeddings) in
      let js = visited w v m.dimensions k.id k.embedding_model s in
      let least = take-IsLeast_sorted (distance_to w v) limit js (
        filter-IsSortedFrom (distance_to w v) own 0 scanned
          (scans.ordered v (join m.dimensions s.vectors s.embeddings))) in
      subst (IsAnswered m v limit) (sym (search-found m v limit known)) (record {
        found = take limit js;
        answer = refl;
        least = least;
        own =
            take-All (distance_to w v) (λ (j : Joined). is_of k.id k.embedding_model j.row ≡ true)
              limit js (filter-holds own scanned);
        stored = λ p. omega (arith, least.whole p, visited-stored scans v m.dimensions p);
        kept = refl;
      })

  execute_search-ready :
      (m : EmbeddingModel) (v : Vector) (text : Str) (limit : ℕ)
      → k.embedding_status ≡ ready
      → get_or_throw k.embedding_model ≡ ok m
      → w.vector_of text k.embedding_model ≡ ok (some v)
      → execute_search w text limit (some k.id) s
        ≡ search w (some v) limit m.dimensions k.embedding_model (some k.id) read_base
  unfolding execute_search require assert_search_ready status_text
  execute_search-ready m v text limit status known embedded =
      rw (get_config-row (some k.id), status, known, embedded) refl

  -- A retrieval in the frame of a READY knowledge base of a known model, whose query text the port embeds, answers, with
  -- their scores and nearest first, rows of the knowledge base and its model that are stored, each at most as often as it is
  -- stored, up to the smaller of the limit asked for, or the default, and the maximum. Of such rows, no row that the
  -- database's scan visits and that is left out is nearer than one in the answer, and the answer is shorter than the limit
  -- only if none that the scan visits is left out. It writes nothing. This takes it that the scan gives rows of the table,
  -- nearest first; over an HNSW index it may leave rows out.
  pub execute_retrieval-IsAnswered :
      IsScan w
      → (m : EmbeddingModel) (v : Vector) (default max : ℕ) (text : Str) (limit : Option ℕ)
      → k.embedding_status ≡ ready
      → get_or_throw k.embedding_model ≡ ok m
      → w.vector_of text k.embedding_model ≡ ok (some v)
      → IsAnswered m v
          (top_k default max limit)
          (execute_retrieval w default max text limit (some k.id) s)
        × (top_k default max limit ≤ max)
  unfolding execute_retrieval
  execute_retrieval-IsAnswered scans m v default max text limit status known embedded = (
    subst (IsAnswered m v (top_k default max limit))
        (sym (execute_search-ready m v text (top_k default max limit) status known embedded))
        (search-IsAnswered scans m v (top_k default max limit) known),
    top_k-max default max limit,
  )

  -- Where the scan leaves no row of the knowledge base and its model out, as one without an index does, the answer has the
  -- nearest of all that are stored.
  pub answered_exact :
      (m : EmbeddingModel) (v : Vector) (limit : ℕ) (out : Result (List SearchResult) × World)
      → ((p : Joined → Bool)
          → count p (visited w v m.dimensions k.id k.embedding_model s)
            ≡ count p (candidates m.dimensions k.id k.embedding_model s))
      → (answered : IsAnswered m v limit out)
      → IsLeast
          (distance_to w v)
          limit
          (candidates m.dimensions k.id k.embedding_model s)
          answered.found
  answered_exact m v limit out all answered = record {
    left = answered.least.left;
    bounded = answered.least.bounded;
    full = answered.least.full;
    sorted = answered.least.sorted;
    nearer = answered.least.nearer;
    whole = λ p. answered.least.whole p ∙ all p;
  }

  -- A retrieval in the frame of a knowledge base that is REEMBEDDING or FAILED is refused with
  -- EmbeddingSearchNotReadyException and its status, whatever the embedding port does, and writes nothing;
  -- outside a frame it fails with KnowledgeBaseContextMissingException.
  pub execute_retrieval_refused :
      (default max : ℕ) (text : Str) (limit : Option ℕ)
      → k.embedding_status ≢ ready
      → (execute_retrieval w default max text limit (some k.id) s
          ≡ (err (search_not_ready k.id (status_text k.embedding_status)), read_base))
        × (execute_retrieval w default max text limit none s ≡ (err context_missing, s))
  unfolding execute_retrieval execute_search require assert_search_ready
  execute_retrieval_refused default max text limit busy =
      (rw (get_config-row (some k.id), not_ready k.embedding_status busy) refl, refl)
