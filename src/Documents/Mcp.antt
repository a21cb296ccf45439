-- ===== src/Documents/Mcp.antt =====
-- The MCP tools of the documents context (src/contexts/documents/transport/mcp/tools). The controller that calls a tool is
-- nestjs-kit's: whether KnowledgeBaseApiKeyGuard, which sets `knowledgeBaseId` on a request, stands before it is a
-- parameter. src/core/core.module.ts gives the kit a context builder and no guard, and the guard stands on the
-- controllers and resolvers of this repository only. The identifier that the builder gives goes to the tool as an argument.
use shiori_api.Shared.{ℕ, ◌≡◌, Bool, true, false, none, some, List, Str, Option, ltb, length, ◌⊎◌}
use shiori_api.Exceptions.{
  Exception, context_missing, invalid_value, content_too_large, field_is_required,
}
use shiori_api.Tenancy.{Result, ok, err}
use shiori_api.Documents.Aggregate.{Document}
use shiori_api.Documents.Store.{Store, M, ◌>>=◌, ◌>>◌, pure, lift, build, DocumentBuilder}
use shiori_api.Documents.Queries.{find_view, find_page}
use shiori_api.Documents.Commands.{
  CreateDocumentResult, create_command, execute_create, execute_rechunk, execute_delete,
}
use shiori_api.Documents.Rest.{Environment, intercept}

-- the tools with their arguments; the list has the page that its criteria stand for
pub data Tool : Type 0 where
  document_create : Str → Str → Tool
  document_find_by_id : ℕ → Tool
  document_find_by_criteria : (List Document → List Document × ℕ) → Tool
  document_delete : ℕ → Tool
  document_rechunk : ℕ → Tool

-- the value whose JSON is the text of the result
pub data ToolResult : Type 0 where
  queued : CreateDocumentResult → ToolResult
  found : Option Document → ToolResult
  listed : List Document → ℕ → ToolResult
  success : ℕ → ToolResult

-- the knowledge base that is set on a request whose key is that of `kb`
request_base : Bool → ℕ → Option ℕ
request_base true kb = some kb
request_base false kb = none

module _ (env : Environment) where
  -- `execute` of each tool
  unfoldable execute_document_create : Str → Str → ℕ → M ToolResult
  execute_document_create title content kb = do
    command ← lift (create_command env.kit kb title content)
    result ← execute_create env.kit env.now env.max_length env.fresh_id command
    pure (queued result)

  unfoldable execute_document_find_by_id : ℕ → M ToolResult
  execute_document_find_by_id id = do view ← find_view id; pure (found view)

  unfoldable execute_document_find_by_criteria : (List Document → List Document × ℕ) → M ToolResult
  execute_document_find_by_criteria page = do
    (items, total) ← find_page page
    pure (listed items total)

  unfoldable execute_document_delete : ℕ → M ToolResult
  execute_document_delete id = do execute_delete env.kit env.now id; pure (success id)

  unfoldable execute_document_rechunk : ℕ → M ToolResult
  execute_document_rechunk id = do execute_rechunk env.kit env.now id; pure (success id)

  -- the tool of a name, with the knowledge base of its context
  unfoldable pub execute : Tool → ℕ → M ToolResult
  unfolding execute_document_create execute_document_find_by_id execute_document_find_by_criteria
      execute_document_delete execute_document_rechunk
  execute (document_create title content) kb = execute_document_create title content kb
  execute (document_find_by_id id) kb = execute_document_find_by_id id
  execute (document_find_by_criteria page) kb = execute_document_find_by_criteria page
  execute (document_delete id) kb = execute_document_delete id
  execute (document_rechunk id) kb = execute_document_rechunk id

  -- a call of a tool under the interceptor, with the knowledge base that the context builder has found for its key
  unfoldable pub call_tool : Bool → Tool → ℕ → M ToolResult
  unfolding request_base
  call_tool is_guarded tool kb = intercept (request_base is_guarded kb) (execute tool kb)

  -- the rows, the jobs and the events
  abbrev pub SameData : Store → Store → Type 0
  SameData s t =
      (s.documents ≡ t.documents)
      × (s.chunks ≡ t.chunks)
      × (s.jobs ≡ t.jobs)
      × (s.events ≡ t.events)

  -- why the arguments of a creation are refused
  pub data IsArgumentRefusal (title content : Str) : Exception → Type 0 where
    invalid_text : IsArgumentRefusal title content invalid_value
    too_long :
        ltb env.max_length (length content) ≡ true
        → IsArgumentRefusal title content (content_too_large (length content) env.max_length)
    without_text : (field : Str) → IsArgumentRefusal title content (field_is_required field)

  -- what a call throws; the creation may refuse its arguments before it writes
  abbrev pub IsRefused : Tool → Result ToolResult → Type 0
  IsRefused (document_create title content) r =
      (r ≡ err context_missing)
      ⊎ ((e : Exception) × IsArgumentRefusal title content e × (r ≡ err e))
  IsRefused (document_find_by_id id) r = r ≡ err context_missing
  IsRefused (document_find_by_criteria page) r = r ≡ err context_missing
  IsRefused (document_delete id) r = r ≡ err context_missing
  IsRefused (document_rechunk id) r = r ≡ err context_missing

  -- `build`, by what it gives
  data BuildCases (b : DocumentBuilder) : Type 0 where
    gives : (d : Document) → build env.kit b ≡ ok d → BuildCases b
    lacks : (field : Str) → build env.kit b ≡ err (field_is_required field) → BuildCases b
    refuses : build env.kit b ≡ err invalid_value → BuildCases b
