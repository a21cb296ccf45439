-- ===== src/Embeddings/Routes/Tests.antt =====
-- A search at the knowledge base of the tests, which is READY, with its key and without; the hash of a key is the key.
use shiori_api.Shared.{◌≡◌, refl, false, none, some, [], ◌∷◌, codes, trim}
use shiori_api.Exceptions.{knowledge_base_unauthorized, context_missing}
use shiori_api.Tenancy.{ok, err}
use shiori_api.KnowledgeBases.Aggregate.{KnowledgeBase, ready}
use shiori_api.KnowledgeBases.Store.{validate}
use shiori_api.Embeddings.Registry.{top_k}
use shiori_api.Embeddings.World.{World}
use shiori_api.Embeddings.Routes.{
  to_search_response, to_search_dto, list_available_models, embedding_models,
}
use shiori_api.Embeddings.Routes.Served.{
  IsServed, rest_search, graphql_search, tool_search, bound_world, retrieval_search-IsServed,
}
use shiori_api.Embeddings.Search.Tests.{worker-IsScan}
use shiori_api.Embeddings.Tests.{worker, base, world, nomic_model, known}

abbrev ready_base : KnowledgeBase
ready_base = record base { embedding_status = ready }

abbrev ready_world : World
ready_world = record world { bases = record world.bases { bases = ready_base ∷ [] } }

base_view : validate ready_base ≡ ok tt
unfolding validate
base_view = refl

-- both routes list the catalogue
same_models : list_available_models ≡ embedding_models
unfolding list_available_models embedding_models
same_models = refl

retrieval_search-IsServed_example :
    let rest = rest_search worker (λ k. k) 5 20 ready_world ready_base (codes "What?") (some 50) in
    let graphql =
      graphql_search worker (λ k. k) 5 20 ready_world ready_base (codes "What?") (some 50) in
    let tool =
      tool_search worker (λ k. k) 5 20 ready_world ready_base (codes "What?") (some 50) false in
    let served =
      IsServed worker
        (λ k. k)
        5
        20
        ready_world
        ready_base
        nomic_model
        (7 ∷ [])
        (top_k 5 20 (some 50)) in
    served to_search_response (rest (some (codes "h")))
    × served to_search_dto (graphql (some (codes "h")))
    × (tool (some (codes "h"))
        ≡ (err context_missing, bound_world worker (λ k. k) 5 20 ready_world ready_base))
    × (rest none ≡ (err knowledge_base_unauthorized, ready_world))
    × (graphql none ≡ (err knowledge_base_unauthorized, ready_world))
    × (tool none ≡ (err knowledge_base_unauthorized, ready_world))
unfolding trim
retrieval_search-IsServed_example =
    retrieval_search-IsServed worker (λ k. k) 5 20 ready_world ready_base (codes "h") refl refl refl
      base_view worker-IsScan false refl nomic_model (7 ∷ []) (codes "What?") (some 50) refl known
      refl
