-- ===== src/Documents/Tests/Requests.antt =====
-- Requests in one knowledge base for a document of another, and a call of an MCP tool.
use shiori_api.Shared.{◌≡◌, refl, none, some, codes}
use shiori_api.Exceptions.{document_not_found}
use shiori_api.Tenancy.{Result, err}
use shiori_api.Documents.Store.{Store}
use shiori_api.Documents.Rest.{
  Environment, get_document, update_document, rechunk_document, delete_document, handle, intercept,
}
use shiori_api.Documents.Graphql.{
  update_mutation, rechunk_mutation, delete_mutation, handle_mutation, query_by_id,
}
use shiori_api.Documents.Rest.Foreign.{handle_not_found}
use shiori_api.Documents.Tests.{kit, store}

abbrev environment : Environment
environment = record { kit = kit; now = 7; max_length = 100; fresh_id = 9 }

abbrev refused : {A : Type 0} → Result A × Store
refused = (err (document_not_found 1), store)

-- document 1 belongs to knowledge base 10
handle_not_found_example :
    ((handle environment 20 (get_document 1) none store ≡ refused)
      × (handle environment 20 (update_document 1 none (some (codes "New."))) none store ≡ refused)
      × (handle environment 20 (rechunk_document 1) none store ≡ refused)
      × (handle environment 20 (delete_document 1) none store ≡ refused))
    × ((intercept (some 20) (query_by_id 1) none store ≡ refused)
        × (handle_mutation environment 20 (update_mutation 1 none (some (codes "New."))) none store
            ≡ refused)
        × (handle_mutation environment 20 (rechunk_mutation 1) none store ≡ refused)
        × (handle_mutation environment 20 (delete_mutation 1) none store ≡ refused))
handle_not_found_example =
    handle_not_found environment 20 1 store refl none (some (codes "New."))
      (record { valid_title = refl; valid_content = refl; fits = refl })
