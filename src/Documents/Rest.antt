-- ===== src/Documents/Rest.antt =====
-- DocumentsController behind the guard and the interceptor
-- (src/contexts/documents/transport/rest/controllers/documents.controller.ts,
-- src/core/tenancy/knowledge-base-context.interceptor.ts). The knowledge base that the guard has bound to the request is an
-- argument; the interceptor opens its frame around the method.
pub mod Foreign
use shiori_api.Shared.{ℕ, Option, none, some, List, [], ◌∷◌, Str, map}
use shiori_api.Documents.Aggregate.{Document, DocumentStatus, Kit}
use shiori_api.Documents.Store.{Store, M, ◌>>=◌, ◌>>◌, pure, lift, run}
use shiori_api.Documents.Queries.{assert_view_exists, find_page}
use shiori_api.Documents.Commands.{
  CreateDocumentCommand, CreateDocumentResult, UpdateDocumentCommand, execute_create,
  execute_update, execute_rechunk, execute_delete, create_command, update_command,
}

-- KnowledgeBaseContextInterceptor: a frame where the request has a knowledge base
unfoldable pub intercept : {A : Type 0} → Option ℕ → M A → M A
intercept none body = body
intercept (some kb) body = run kb body

-- DocumentRestResponseDto: the view model without the knowledge base
pub record DocumentResponse : Type 0 where
  pub id : ℕ
  pub title : Str
  pub content : Str
  pub status : DocumentStatus
  pub failure_reason : Option Str
  pub chunk_count : ℕ
  pub created_at : ℕ
  pub updated_at : ℕ

abbrev pub to_response : Document → DocumentResponse
to_response d = record {
  id = d.id;
  title = d.title;
  content = d.content;
  status = d.status;
  failure_reason = d.failure_reason;
  chunk_count = d.chunk_count;
  created_at = d.created_at;
  updated_at = d.updated_at;
}

-- the routes with their parameters and bodies; `list` has the page that its criteria stand for
pub data Route : Type 0 where
  create_document : Str → Str → Route
  list_documents : (List Document → List Document × ℕ) → Route
  get_document : ℕ → Route
  update_document : ℕ → Option Str → Option Str → Route
  rechunk_document : ℕ → Route
  delete_document : ℕ → Route

pub data Response : Type 0 where
  accepted : CreateDocumentResult → Response
  listed : List DocumentResponse → ℕ → Response
  shown : DocumentResponse → Response
  no_content : Response

pub record Environment : Type 0 where
  pub kit : Kit
  pub now : ℕ
  pub max_length : ℕ
  pub fresh_id : ℕ

module _ (env : Environment) where
  unfoldable pub show : ℕ → M Response
  show id = do view ← assert_view_exists id; pure (shown (to_response view))

  -- the method of a route, with the knowledge base of the request
  unfoldable pub respond : ℕ → Route → M Response
  respond kb (create_document title content) = do
    command ← lift (create_command env.kit kb title content)
    result ← execute_create env.kit env.now env.max_length env.fresh_id command
    pure (accepted result)
  respond kb (list_documents page) = do
    (items, total) ← find_page page
    pure (listed (map to_response items) total)
  respond kb (get_document id) = show id
  respond kb (update_document id title content) = do
    command ← lift (update_command env.kit id title content)
    execute_update env.kit env.now env.max_length command
    show id
  respond kb (rechunk_document id) = do execute_rechunk env.kit env.now id; show id
  respond kb (delete_document id) = do execute_delete env.kit env.now id; pure no_content

  unfoldable pub handle : ℕ → Route → M Response
  handle kb route = intercept (some kb) (respond kb route)
