-- ===== src/KnowledgeBases/Queries.antt =====
-- The reads of the knowledge bases (src/contexts/knowledge-bases/application/queries and the read repository). A
-- view model has the fields of the row.
pub mod Kept
use shiori_api.Shared.{ℕ, Option, none, some, Str, codes, ◌==◌, find}
use shiori_api.Exceptions.{knowledge_base_not_found}
use shiori_api.Tenancy.{ok, err}
use shiori_api.KnowledgeBases.Aggregate.{
  KnowledgeBase, EmbeddingStatus, ready, reembedding, unsuccessful,
}
use shiori_api.KnowledgeBases.Store.{M, ◌>>=◌, ◌>>◌, pure, lift, validate, has_hash}

-- the values of KnowledgeBaseEmbeddingStatusEnum
unfoldable pub status_text : EmbeddingStatus → Str
status_text ready = codes "READY"
status_text reembedding = codes "REEMBEDDING"
status_text unsuccessful = codes "FAILED"

-- The eight `with…` calls of the mapper
abbrev pub load : KnowledgeBase → M (Unit {0})
load entity s = (ok tt, record s { builder = entity })

unfoldable pub to_view_model : KnowledgeBase → M KnowledgeBase
to_view_model entity = do load entity; lift (validate entity); pure entity

to_view_model_found : Option KnowledgeBase → M (Option KnowledgeBase)
to_view_model_found none = pure none
to_view_model_found (some entity) = do v ← to_view_model entity; pure (some v)

-- KnowledgeBaseFindByIdQueryHandler
unfoldable pub find_view : ℕ → M (Option KnowledgeBase)
unfolding to_view_model_found
find_view id s = to_view_model_found (find (λ k. k.id == id) s.bases) s

-- KnowledgeBaseFindByApiKeyHashQueryHandler
unfoldable pub find_view_by_hash : Str → M (Option KnowledgeBase)
unfolding to_view_model_found
find_view_by_hash hash s = to_view_model_found (find (has_hash hash) s.bases) s

-- AssertKnowledgeBaseViewModelExistsService
view_or_not_found : ℕ → Option KnowledgeBase → M KnowledgeBase
view_or_not_found id none = lift (err (knowledge_base_not_found id))
view_or_not_found id (some k) = pure k

unfoldable pub assert_view_exists : ℕ → M KnowledgeBase
unfolding find_view view_or_not_found
assert_view_exists id = do found ← find_view id; view_or_not_found id found
