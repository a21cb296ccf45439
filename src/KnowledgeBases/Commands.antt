-- ===== src/KnowledgeBases/Commands.antt =====
-- The command handlers of src/contexts/knowledge-bases/application/commands with their services, and the guard
-- that opens the frame of a request (src/core/tenancy/knowledge-base-api-key.guard.ts). The catalogue of
-- models, the random part of a key and the hash are arguments.
pub mod Model
pub mod Keys
pub mod Outcome
use shiori_api.Shared.{
  ℕ, Bool, true, false, not, ◌||◌, Option, none, some, List, [], ◌∷◌, ◌++◌, Str, codes,
  if◌then◌else◌, trim,
}
use shiori_api.Exceptions.{
  knowledge_base_unauthorized, invalid_embedding_model, reembedding_in_progress,
}
use shiori_api.Tenancy.{Result, ok, err}
use shiori_api.KnowledgeBases.Aggregate.{
  KnowledgeBase, Values, Event, Change, is_reembedding, create, delete, update, rotate_api_key,
  change_embedding_model, request_reembedding, complete_reembedding, fail_reembedding,
}
use shiori_api.KnowledgeBases.Store.{
  Store, M, ◌>>=◌, ◌>>◌, pure, lift, build, assert_exists, save_base, delete_base, find_by_hash,
  is_blank, publish,
}

-- AssertEmbeddingModelIsValidService
unfoldable pub assert_model_is_valid : (Str → Bool) → Str → M (Unit {0})
assert_model_is_valid is_known model =
    if is_known model then pure tt else lift (err (invalid_embedding_model model))

-- AssertKnowledgeBaseNotReembeddingService
unfoldable pub assert_not_reembedding : KnowledgeBase → M (Unit {0})
assert_not_reembedding k =
    if is_reembedding k.embedding_status then lift (err (reembedding_in_progress k.id)) else pure tt

pub record CreateKnowledgeBaseCommand : Type 0 where
  pub name : Str
  pub description : Option Str
  pub embedding_model : Str

-- GenerateApiKeyService, from the random part
abbrev pub generate_api_key : Str → Str
generate_api_key random = codes "kb_" ++ random

module _ (valid : KnowledgeBase → Bool) (kit : Values) (now : ℕ) where
  -- the aggregate's change, saved and published
  unfoldable pub save_change : Change → M (Unit {0})
  unfolding save_base publish
  save_change (k, events) = do _ ← save_base valid k; publish events

  unfoldable pub execute_update : ℕ → Option Str → Option (Option Str) → M (Unit {0})
  unfolding assert_exists save_change
  execute_update id name description = do
    k ← assert_exists valid id
    save_change (update kit now name description k)

  unfoldable pub execute_delete : ℕ → M (Unit {0})
  unfolding assert_exists delete_base publish delete
  execute_delete id = do k ← assert_exists valid id; delete_base k.id; publish ((delete k).1)

  unfoldable pub execute_rotate : (Str → Str) → Str → ℕ → M Str
  unfolding assert_exists save_change
  execute_rotate hash random id = do
    k ← assert_exists valid id
    save_change (rotate_api_key kit now (hash (generate_api_key random)) k)
    pure (generate_api_key random)

  unfoldable pub change_unless : Str → KnowledgeBase → Bool → M (Unit {0})
  unfolding assert_not_reembedding save_change
  change_unless model k true = pure tt
  change_unless model k false = do
    assert_not_reembedding k
    save_change (change_embedding_model kit now model k)

  unfoldable pub execute_change_model : (Str → Bool) → ℕ → Str → M (Unit {0})
  unfolding assert_exists assert_model_is_valid change_unless
  execute_change_model is_known id model = do
    k ← assert_exists valid id
    assert_model_is_valid is_known model
    change_unless model k (kit.equals k.embedding_model model)

  unfoldable pub execute_reembed : ℕ → M (Unit {0})
  unfolding assert_exists assert_not_reembedding save_change
  execute_reembed id = do
    k ← assert_exists valid id
    assert_not_reembedding k
    save_change (request_reembedding kit now k)

  unfoldable pub execute_complete : ℕ → M (Unit {0})
  unfolding assert_exists save_change
  execute_complete id = do k ← assert_exists valid id; save_change (complete_reembedding kit now k)

  unfoldable pub execute_fail : ℕ → M (Unit {0})
  unfolding assert_exists save_change
  execute_fail id = do k ← assert_exists valid id; save_change (fail_reembedding kit now k)

  -- The chain of `with…` calls before `build`, without the embedding status
  abbrev pub with_command : ℕ → Str → CreateKnowledgeBaseCommand → KnowledgeBase → KnowledgeBase
  with_command id hashed command b = record b {
    id = id;
    name = command.name;
    description = command.description;
    api_key_hash = hashed;
    embedding_model = command.embedding_model;
    created_at = now;
    updated_at = now;
  }

  unfoldable pub execute_create :
      (Str → Bool) → (Str → Str) → Str → ℕ → CreateKnowledgeBaseCommand → M (ℕ × Str)
  unfolding assert_model_is_valid build save_base publish create
  execute_create is_known hash random id command = do
    assert_model_is_valid is_known command.embedding_model
    k ← λ s.
        (let b = with_command id (hash (generate_api_key random)) command s.builder in
          (build valid b, record s { builder = b }))
    _ ← save_base valid k
    publish ((create k).1)
    pure (k.id, generate_api_key random)

-- KnowledgeBaseApiKeyGuard: the identifier that the request is bound to, `none` where the guard is
-- skipped.
unfoldable pub bound : Option ℕ → M (Option ℕ)
bound none = lift (err knowledge_base_unauthorized)
bound (some id) = pure (some id)

check_key : (Str → Str) → Str → M (Option ℕ)
unfolding find_by_hash bound
check_key hash key =
    if is_blank (trim key)
    then lift (err knowledge_base_unauthorized)
    else find_by_hash (hash key) >>= bound

unfoldable pub can_activate : (Str → Str) → Bool → Option Str → M (Option ℕ)
unfolding check_key
can_activate hash true header = pure none
can_activate hash false none = lift (err knowledge_base_unauthorized)
can_activate hash false (some key) = check_key hash key
