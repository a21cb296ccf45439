-- ===== src/Documents/Queries.antt =====
-- The reads of the documents context (src/contexts/documents/application/queries and its read repository). The
-- paging of nestjs-kit's criteria is the argument `page`, which gives the rows of a page and the total.
pub mod Chunks
use shiori_api.Shared.{
  ℕ, Bool, true, false, Option, none, some, List, [], ◌∷◌, Str, codes, ◌==◌, if◌then◌else◌, filter,
  map,
}
use shiori_api.Exceptions.{document_not_found, field_is_required}
use shiori_api.Tenancy.{Result, ok, err, table, tenant_find}
use shiori_api.Documents.Aggregate.{Document}
use shiori_api.Documents.Store.{
  DocumentBuilder, Store, M, ◌>>=◌, ◌>>◌, pure, lift, ambient, reading, document_columns, is_blank,
  loaded,
}

-- DocumentBuilder.validate
unfoldable pub validate : DocumentBuilder → Result (Unit {0})
validate b =
    if is_blank b.title
    then err (field_is_required (codes "title"))
    else if is_blank b.content
    then err (field_is_required (codes "content"))
    else ok tt

-- The nine `with…` calls of the mapper
abbrev pub load : Document → M (Unit {0})
load entity ctx s = (ok tt, record s { builder = loaded entity })

-- DocumentTypeOrmMapper.toViewModel: the fields of the row, if `validate` takes them
unfoldable pub to_view_model : Document → M Document
unfolding validate
to_view_model entity = do load entity; lift (validate (loaded entity)); pure entity

to_view_model_first : List Document → M (Option Document)
unfolding to_view_model
to_view_model_first [] = pure none
to_view_model_first (entity ∷ _) = do v ← to_view_model entity; pure (some v)

-- DocumentFindByIdQueryHandler
unfoldable pub find_view : ℕ → M (Option Document)
unfolding to_view_model_first tenant_find
find_view id = do
  rows ←
      reading (λ ctx s.
        tenant_find document_columns (table (λ d. d.id)) ctx (λ d. d.id == id) s.documents)
  to_view_model_first rows

-- AssertDocumentViewModelExistsService
view_or_not_found : ℕ → Option Document → M Document
view_or_not_found id none = lift (err (document_not_found id))
view_or_not_found id (some d) = pure d

unfoldable pub assert_view_exists : ℕ → M Document
unfolding find_view view_or_not_found
assert_view_exists id = do found ← find_view id; view_or_not_found id found

abbrev pub belongs_to : ℕ → Document → Bool
belongs_to kb d = d.knowledge_base_id == kb

-- DocumentFindIdsByKnowledgeBaseIdQueryHandler, which takes the rows of any knowledge base
unfoldable pub find_ids : ℕ → List Document → List ℕ
find_ids kb ds = map (λ d. d.id) (filter (belongs_to kb) ds)

unfoldable pub view_all : List Document → M (List Document)
unfolding to_view_model
view_all [] = pure []
view_all (d ∷ ds) = do v ← to_view_model d; vs ← view_all ds; pure (v ∷ vs)

-- DocumentFindByCriteriaQueryHandler
unfoldable pub find_page : (List Document → List Document × ℕ) → M (List Document × ℕ)
unfolding view_all
find_page page = do
  kb ← ambient
  (entities, total) ← reading (λ ctx s. ok (page (filter (belongs_to kb) s.documents)))
  items ← view_all entities
  pure (items, total)
