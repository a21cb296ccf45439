-- ===== src/Documents/Graphql.antt =====
-- DocumentMutationsResolver and DocumentQueriesResolver (src/contexts/documents/transport/graphql/resolvers), behind the same
-- guard and interceptor as the controller. The paging of the criteria is the argument `page`.
use shiori_api.Shared.{ℕ, Option, some, List, Str, codes, map}
use shiori_api.Documents.Aggregate.{Document}
use shiori_api.Documents.Store.{M, ◌>>=◌, ◌>>◌, pure, lift}
use shiori_api.Documents.Queries.{assert_view_exists, find_page}
use shiori_api.Documents.Commands.{
  create_command, update_command, execute_create, execute_update, execute_rechunk, execute_delete,
}
use shiori_api.Documents.Rest.{Environment, DocumentResponse, to_response, intercept}

-- the mutations with their arguments
pub data Mutation : Type 0 where
  create_mutation : Str → Str → Mutation
  update_mutation : ℕ → Option Str → Option Str → Mutation
  rechunk_mutation : ℕ → Mutation
  delete_mutation : ℕ → Mutation

-- MutationResponseDto of a success
pub record MutationResponse : Type 0 where
  pub message : Str
  pub id : ℕ

module _ (env : Environment) where
  -- a mutation, with the knowledge base of the request
  unfoldable pub mutate : ℕ → Mutation → M MutationResponse
  mutate kb (create_mutation title content) = do
    command ← lift (create_command env.kit kb title content)
    result ← execute_create env.kit env.now env.max_length env.fresh_id command
    pure (record { message = codes "Document created successfully"; id = result.id })
  mutate kb (update_mutation id title content) = do
    command ← lift (update_command env.kit id title content)
    execute_update env.kit env.now env.max_length command
    pure (record { message = codes "Document updated successfully"; id = id })
  mutate kb (rechunk_mutation id) = do
    execute_rechunk env.kit env.now id
    pure (record { message = codes "Document rechunk requested"; id = id })
  mutate kb (delete_mutation id) = do
    execute_delete env.kit env.now id
    pure (record { message = codes "Document deleted successfully"; id = id })

  unfoldable pub handle_mutation : ℕ → Mutation → M MutationResponse
  handle_mutation kb mutation = intercept (some kb) (mutate kb mutation)

-- documentFindById and documentFindByCriteria; DocumentGraphQLMapper copies the fields that the REST mapper copies
unfoldable pub query_by_id : ℕ → M DocumentResponse
query_by_id id = do view ← assert_view_exists id; pure (to_response view)

unfoldable query_by_criteria : (List Document → List Document × ℕ) → M (List DocumentResponse × ℕ)
query_by_criteria page = do (items, total) ← find_page page; pure (map to_response items, total)
