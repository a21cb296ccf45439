-- ===== src/Documents/Rest/Foreign.antt =====
-- Requests that name a document of another knowledge base, or none.
use shiori_api.Shared.{
  ℕ, ◌≡◌, refl, true, false, Option, none, some, [], Str, ◌==◌, filter, ltb, length,
}
use shiori_api.Exceptions.{document_not_found}
use shiori_api.Tenancy.{ok, err, scoped, require}
use shiori_api.Documents.Aggregate.{title_text, content_text}
use shiori_api.Documents.Store.{Store, document_columns, find_document}
use shiori_api.Documents.Queries.{assert_view_exists, find_view}
use shiori_api.Documents.Commands.{
  accepts_given, update_command, execute_update, execute_rechunk, execute_delete,
}
use shiori_api.Documents.Rest.{
  Environment, get_document, update_document, rechunk_document, delete_document, show, respond,
  handle, intercept,
}
use shiori_api.Documents.Graphql.{
  update_mutation, rechunk_mutation, delete_mutation, handle_mutation, mutate, query_by_id,
}

module _ (env : Environment) (kb id : ℕ) (s : Store)
    (missing : filter (scoped document_columns kb (λ d. d.id == id)) s.documents ≡ []) where
  show-missing : show env id (some kb) s ≡ (err (document_not_found id), s)
  unfolding show assert_view_exists find_view require
  show-missing = rw missing refl

  abbrev pub FitsContent : Option Str → Type 0
  FitsContent none = Unit
  FitsContent (some content) = ltb env.max_length (length content) ≡ false

  -- the texts of an update: the value objects take them, and the content is not too long
  pub record IsTaken (title content : Option Str) : Type 0 where
    pub valid_title : accepts_given env.kit title_text title ≡ true
    pub valid_content : accepts_given env.kit content_text content ≡ true
    pub fits : FitsContent content

  command-IsTaken :
      (title content : Option Str)
      → IsTaken title content
      → update_command env.kit id title content
        ≡ ok (record { id = id; title = title; content = content })
  unfolding update_command
  command-IsTaken title content h = rw (h.valid_title, h.valid_content) refl

  execute_update-missing :
      (title content : Option Str)
      → FitsContent content
      → execute_update env.kit env.now env.max_length
          (record { id = id; title = title; content = content })
          (some kb)
          s
        ≡ (err (document_not_found id), s)
  unfolding execute_update find_document require
  execute_update-missing title none fits = rw missing refl
  execute_update-missing title (some content) fits = rw (fits, missing) refl

  update-missing :
      (title content : Option Str)
      → IsTaken title content
      → handle env kb (update_document id title content) none s ≡ (err (document_not_found id), s)
  unfolding handle respond intercept
  update-missing title content h =
      rw (command-IsTaken title content h, execute_update-missing title content h.fits) refl

  update_mutation-missing :
      (title content : Option Str)
      → IsTaken title content
      → handle_mutation env kb (update_mutation id title content) none s
        ≡ (err (document_not_found id), s)
  unfolding handle_mutation mutate intercept
  update_mutation-missing title content h =
      rw (command-IsTaken title content h, execute_update-missing title content h.fits) refl

  query_by_id-missing :
      intercept (some kb) (query_by_id id) none s ≡ (err (document_not_found id), s)
  unfolding query_by_id intercept assert_view_exists find_view require
  query_by_id-missing = rw missing refl

  -- the mutations and the query of GraphQL
  graphql_not_found :
      (title content : Option Str)
      → IsTaken title content
      → (intercept (some kb) (query_by_id id) none s ≡ (err (document_not_found id), s))
        × (handle_mutation env kb (update_mutation id title content) none s
            ≡ (err (document_not_found id), s))
        × (handle_mutation env kb (rechunk_mutation id) none s ≡ (err (document_not_found id), s))
        × (handle_mutation env kb (delete_mutation id) none s ≡ (err (document_not_found id), s))
  unfolding handle_mutation mutate intercept execute_rechunk execute_delete find_document require
  graphql_not_found title content taken = (
    query_by_id-missing,
    update_mutation-missing title content taken,
    rw missing refl,
    rw missing refl,
  )

  -- the routes of the controller
  rest_not_found :
      (title content : Option Str)
      → IsTaken title content
      → (handle env kb (get_document id) none s ≡ (err (document_not_found id), s))
        × (handle env kb (update_document id title content) none s
            ≡ (err (document_not_found id), s))
        × (handle env kb (rechunk_document id) none s ≡ (err (document_not_found id), s))
        × (handle env kb (delete_document id) none s ≡ (err (document_not_found id), s))
  unfolding handle respond intercept execute_rechunk execute_delete find_document require
  rest_not_found title content taken =
      (show-missing, update-missing title content taken, rw missing refl, rw missing refl)

  -- In the frame of a knowledge base that has no document with the identifier, whoever else may have one, each route,
  -- each mutation and the query that names it is refused with DocumentNotFoundException and changes
  -- nothing; an update if the value objects of the command take its title and content, as far as given, and the content
  -- is not too long.
  pub handle_not_found :
      (title content : Option Str)
      → IsTaken title content
      → ((handle env kb (get_document id) none s ≡ (err (document_not_found id), s))
          × (handle env kb (update_document id title content) none s
              ≡ (err (document_not_found id), s))
          × (handle env kb (rechunk_document id) none s ≡ (err (document_not_found id), s))
          × (handle env kb (delete_document id) none s ≡ (err (document_not_found id), s)))
        × ((intercept (some kb) (query_by_id id) none s ≡ (err (document_not_found id), s))
            × (handle_mutation env kb (update_mutation id title content) none s
                ≡ (err (document_not_found id), s))
            × (handle_mutation env kb (rechunk_mutation id) none s
                ≡ (err (document_not_found id), s))
            × (handle_mutation env kb (delete_mutation id) none s
                ≡ (err (document_not_found id), s)))
  handle_not_found title content taken =
      (rest_not_found title content taken, graphql_not_found title content taken)
