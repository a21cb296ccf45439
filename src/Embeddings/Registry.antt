-- ===== src/Embeddings/Registry.antt =====
-- The catalogue of embedding models, the vector table of each dimension, the readiness of search, and the
-- number of results (src/contexts/embeddings/domain, src/contexts/retrieval).
pub mod Tests
use shiori_api.Shared.{
  ℕ, ◌≡◌, ◌≤◌, refl, Bool, true, false, not, Option, none, some, List, [], ◌∷◌, Str, codes, str_eq,
  find, filter, map, ◌==◌, ltb, if◌then◌else◌, All, arith, str_eq_sound, Bool-cases, inl, inr,
}
use shiori_api.Exceptions.{Exception, search_not_ready, unknown_embedding_model}
use shiori_api.Tenancy.{Result, ok, err, ◌>>=◌, IfOk}

pub record EmbeddingModel : Type 0 where
  pub id : Str
  pub provider : Str
  pub dimensions : ℕ

abbrev pub registry : List EmbeddingModel
registry =
    record { id = codes "text-embedding-3-small"; provider = codes "openai"; dimensions = 1536 }
    ∷ record { id = codes "text-embedding-ada-002"; provider = codes "openai"; dimensions = 1536 }
    ∷ record { id = codes "nomic-embed-text"; provider = codes "ollama"; dimensions = 768 }
    ∷ record { id = codes "mxbai-embed-large"; provider = codes "ollama"; dimensions = 1024 }
    ∷ record { id = codes "qwen3-embedding:0.6b"; provider = codes "ollama"; dimensions = 1024 }
    ∷ []

unfoldable pub find_by_id : Str → Option EmbeddingModel
find_by_id id = find (λ m. str_eq m.id id) registry

or_unknown : Str → Option EmbeddingModel → Result EmbeddingModel
or_unknown id none = err (unknown_embedding_model id)
or_unknown id (some m) = ok m

unfoldable pub get_or_throw : Str → Result EmbeddingModel
unfolding find_by_id or_unknown
get_or_throw id = or_unknown id (find_by_id id)

-- `[...new Set(xs)]`: the first of equal numbers stays
unique : List ℕ → List ℕ
unique [] = []
unique (n ∷ ns) = n ∷ filter (λ m. not (m == n)) (unique ns)

unfoldable pub embedding_dimensions : List ℕ
unfolding unique
embedding_dimensions = unique (map (λ m. m.dimensions) registry)

-- The key under which the map of the vector tables has an entity.
unfoldable pub vector_table : ℕ → Option ℕ
unfolding embedding_dimensions
vector_table dimensions = find (λ n. n == dimensions) embedding_dimensions

-- AssertEmbeddingSearchReadyService
unfoldable pub assert_search_ready : ℕ → Str → Result (Unit {0})
assert_search_ready kb status =
    if not (str_eq status (codes "READY")) then err (search_not_ready kb status) else ok tt

-- `Math.min(query.topK ?? default, max)`
unfoldable pub top_k : ℕ → ℕ → Option ℕ → ℕ
top_k default max none = if ltb max default then max else default
top_k default max (some k) = if ltb max k then max else k

-- A model that pgvector's index can hold, with a table for its vectors.
pub record IsStorable (m : EmbeddingModel) : Type 0 where
  pub indexable : m.dimensions ≤ 2000
  pub has_table : vector_table m.dimensions ≡ some m.dimensions

small_table :
    {id provider : Str} → IsStorable (record { id = id; provider = provider; dimensions = 1536 })
unfolding vector_table
small_table = record { indexable = omega arith; has_table = refl }

nomic_table :
    {id provider : Str} → IsStorable (record { id = id; provider = provider; dimensions = 768 })
unfolding vector_table
nomic_table = record { indexable = omega arith; has_table = refl }

large_table :
    {id provider : Str} → IsStorable (record { id = id; provider = provider; dimensions = 1024 })
unfolding vector_table
large_table = record { indexable = omega arith; has_table = refl }

IsStorable-registry : All IsStorable registry
IsStorable-registry = (small_table, (small_table, (nomic_table, (large_table, (large_table, tt)))))

-- what a search gives is the name asked for, of a model that is storable
pub record IsModel (id : Str) (m : EmbeddingModel) : Type 0 where
  pub named : m.id ≡ id
  pub storable : IsStorable m

found-IsModel :
    (id : Str) (ms : List EmbeddingModel)
    → All IsStorable ms
    → IfOk (IsModel id) (or_unknown id (find (λ m. str_eq m.id id) ms))
unfolding or_unknown
found-IsModel id [] h = tt
found-IsModel id (m ∷ ms) (hm, h) = elim (Bool-cases (str_eq m.id id)) [
  | inl e ↦ rw e (record { named = str_eq_sound m.id id e; storable = hm })
  | inr e ↦ rw e (found-IsModel id ms h)
]

-- A model that `getOrThrow` gives for a name has that name, at most the 2000 dimensions that can be indexed, and a vector
-- table of its dimension; and for the name of each model of the catalogue it gives that model.
pub get_or_throw-IsModel :
    (id : Str)
    → IfOk (IsModel id) (get_or_throw id)
      × All (λ (m : EmbeddingModel). get_or_throw m.id ≡ ok m) registry
unfolding get_or_throw
get_or_throw-IsModel id =
    (found-IsModel id registry IsStorable-registry, (refl, (refl, (refl, (refl, (refl, tt))))))
