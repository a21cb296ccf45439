-- ===== src/Embeddings/Search/Tests.antt =====
-- The searches and the storage at the knowledge base of the tests.
use shiori_api.Shared.{
  sym, ◌∙◌, take, drop, sort_by, count, count-append, take-append-drop, count-sort_by,
  take-IsSortedFrom, sort_by-IsSortedFrom, ◌≡◌, ◌≢◌, ◌≤◌, refl, ap, true, false, none, some, [],
  ◌∷◌, codes, arith, Bool,
}
use shiori_api.Exceptions.{search_not_ready, context_missing}
use shiori_api.Tenancy.{ok, err}
use shiori_api.KnowledgeBases.Aggregate.{
  KnowledgeBase, EmbeddingStatus, ready, reembedding, unsuccessful,
}
use shiori_api.KnowledgeBases.Queries.{status_text}
use shiori_api.KnowledgeBases.Store.{validate}
use shiori_api.Embeddings.Registry.{top_k}
use shiori_api.Embeddings.World.{World}
use shiori_api.Embeddings.Storage.{table_for, all_owned}
use shiori_api.Embeddings.Storage.Refinement.{concrete, save, IsRefined, operation-IsRefined}
use shiori_api.Embeddings.Search.{distance_to, execute_retrieval}
use shiori_api.Embeddings.Search.Nearest.{
  IsScan, IsAnswered, read_base, execute_retrieval-IsAnswered, execute_retrieval_refused,
}
use shiori_api.Embeddings.Tests.{worker, base, world, planned, nomic_model, known}

abbrev ready_base : KnowledgeBase
ready_base = record base { embedding_status = ready }

abbrev ready_world : World
ready_world = record world { bases = record world.bases { bases = ready_base ∷ [] } }

base_view : validate ready_base ≡ ok tt
unfolding validate
base_view = refl

pub worker-IsScan : IsScan worker
worker-IsScan = record {
  rows = λ query js p.
      let sorted = sort_by (distance_to worker query) js in
      let counted =
        sym (count-append p (take 40 sorted) (drop 40 sorted))
        ∙ ap (count p) (take-append-drop 40 sorted)
        ∙ count-sort_by (distance_to worker query) p js in
      omega (arith, counted);
  ordered = λ query js.
      take-IsSortedFrom (distance_to worker query) 0 40 (sort_by (distance_to worker query) js)
        (sort_by-IsSortedFrom (distance_to worker query) js);
}

execute_retrieval-IsAnswered_example :
    IsAnswered worker ready_world ready_base refl base_view nomic_model
      (7 ∷ [])
      (top_k 5 20 (some 50))
      (execute_retrieval worker 5 20 (codes "What?") (some 50) (some 1) ready_world)
    × (top_k 5 20 (some 50) ≤ 20)
execute_retrieval-IsAnswered_example =
    execute_retrieval-IsAnswered worker ready_world ready_base refl base_view worker-IsScan
      nomic_model (7 ∷ []) 5 20 (codes "What?") (some 50) refl known refl

busy_view : validate base ≡ ok tt
unfolding validate
busy_view = refl

is_busy : EmbeddingStatus → Bool
is_busy ready = false
is_busy reembedding = true
is_busy unsuccessful = true

busy_not_ready : reembedding ≢ ready
unfolding is_busy
busy_not_ready h = let c = ap is_busy h in ground arith

execute_retrieval_refused_example :
    (execute_retrieval worker 5 20 (codes "What?") none (some 1) world ≡ (
      err (search_not_ready 1 (status_text reembedding)),
      read_base worker world base refl busy_view,
    ))
    × (execute_retrieval worker 5 20 (codes "What?") none none world ≡ (err context_missing, world))
execute_retrieval_refused_example =
    execute_retrieval_refused worker world base refl busy_view 5 20 (codes "What?") none
      busy_not_ready

nomic_table : table_for 768 ≡ ok 768
unfolding table_for
nomic_table = refl

operation-IsRefined_example :
    IsRefined 768 768 nomic_table 1
      (save planned)
      world
      (concrete 768 (save planned) (some 1) world)
unfolding all_owned
operation-IsRefined_example =
    operation-IsRefined 768 768 nomic_table 1 (save planned) world
      (record { sole = (refl, (refl, tt)); owned = (refl, (refl, tt)) })
      (refl, ((refl, (refl, tt)), ((refl, (refl, (refl, tt))), tt)))
