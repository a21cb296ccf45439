-- ===== src/KnowledgeBases/Rest.antt =====
-- KnowledgeBasesController behind its guard
-- (src/contexts/knowledge-bases/transport/rest/controllers/knowledge-bases.controller.ts). A route reads the knowledge base
-- that the guard has bound to the request; there is no identifier in a path or a body.
pub mod Kept
pub mod Isolation
use shiori_api.Shared.{ℕ, Bool, true, false, Option, none, some, Str}
use shiori_api.Exceptions.{knowledge_base_unauthorized}
use shiori_api.Tenancy.{err}
use shiori_api.KnowledgeBases.Aggregate.{KnowledgeBase, Values, EmbeddingStatus}
use shiori_api.KnowledgeBases.Store.{Store, M, ◌>>=◌, ◌>>◌, pure, lift}
use shiori_api.KnowledgeBases.Queries.{assert_view_exists}
use shiori_api.KnowledgeBases.Commands.{
  CreateKnowledgeBaseCommand, execute_create, execute_update, execute_delete, execute_change_model,
  execute_reembed, execute_rotate, can_activate,
}

-- KnowledgeBaseRestResponseDto: the view model without the hash of the key
pub record BaseResponse : Type 0 where
  pub id : ℕ
  pub name : Str
  pub description : Option Str
  pub embedding_model : Str
  pub embedding_status : EmbeddingStatus
  pub created_at : ℕ
  pub updated_at : ℕ

abbrev pub to_response : KnowledgeBase → BaseResponse
to_response k = record {
  id = k.id;
  name = k.name;
  description = k.description;
  embedding_model = k.embedding_model;
  embedding_status = k.embedding_status;
  created_at = k.created_at;
  updated_at = k.updated_at;
}

-- the guarded routes with their bodies
pub data Route : Type 0 where
  get_own : Route
  update_own : Option Str → Option (Option Str) → Route
  delete_own : Route
  change_own_model : Str → Route
  reembed_own : Route
  rotate_own_key : Route

pub data Response : Type 0 where
  created : BaseResponse → Str → Response
  shown : BaseResponse → Response
  no_content : Response
  rotated : Str → Response

-- What the handlers take from outside: the values, the clock, the catalogue of models, the hash, and the random
-- part and the identifier that a creation or a rotation draws.
pub record Environment : Type 0 where
  pub valid : KnowledgeBase → Bool
  pub kit : Values
  pub now : ℕ
  pub is_known : Str → Bool
  pub hash : Str → Str
  pub random : Str
  pub fresh_id : ℕ

module _ (env : Environment) where
  unfoldable pub show : ℕ → M Response
  show id = do view ← assert_view_exists id; pure (shown (to_response view))

  -- the route that skips the guard
  unfoldable pub create_knowledge_base : CreateKnowledgeBaseCommand → M Response
  create_knowledge_base dto = do
    (id, api_key) ←
        execute_create env.valid env.kit env.now env.is_known env.hash env.random env.fresh_id dto
    view ← assert_view_exists id
    pure (created (to_response view) api_key)

  -- the method of a route, for the knowledge base that is bound to the request
  unfoldable pub own : Route → ℕ → M Response
  own get_own id = show id
  own (update_own name description) id = do
    execute_update env.valid env.kit env.now id name description
    show id
  own delete_own id = do execute_delete env.valid env.kit env.now id; pure no_content
  own (change_own_model model) id = do
    execute_change_model env.valid env.kit env.now env.is_known id model
    show id
  own reembed_own id = do execute_reembed env.valid env.kit env.now id; show id
  own rotate_own_key id = do
    api_key ← execute_rotate env.valid env.kit env.now env.hash env.random id
    pure (rotated api_key)

  -- A guard that is not skipped binds a knowledge base or throws.
  unfoldable pub with_bound : Route → Option ℕ → M Response
  with_bound route none = lift (err knowledge_base_unauthorized)
  with_bound route (some id) = own route id

  -- a request to a route with its X-API-Key header
  unfoldable pub handle : Option Str → Route → M Response
  handle key route = do bound ← can_activate env.hash false key; with_bound route bound
