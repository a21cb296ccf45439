-- ===== src/KnowledgeBases/Aggregate.antt =====
-- KnowledgeBaseAggregate (src/contexts/knowledge-bases/domain/aggregates/knowledge-base.aggregate.ts). A mutator returns the
-- new aggregate with the events it applies; none of them throws. What the aggregate takes from
-- nestjs-kit is a parameter.
pub mod Secrecy
use shiori_api.Shared.{
  ℕ, ◌≡◌, ◌↔◌, Bool, true, false, Option, none, some, List, [], ◌∷◌, ◌++◌, Str, str_eq,
  if◌then◌else◌,
}

pub data EmbeddingStatus : Type 0 where
  ready reembedding unsuccessful : EmbeddingStatus

abbrev pub is_reembedding : EmbeddingStatus → Bool
is_reembedding reembedding = true
is_reembedding _ = false

pub record KnowledgeBase : Type 0 where
  pub id : ℕ
  pub name : Str
  pub description : Option Str
  pub api_key_hash : Str
  pub embedding_model : Str
  pub embedding_status : EmbeddingStatus
  pub created_at : ℕ
  pub updated_at : ℕ

-- `eventData`: the primitives without the hash of the key.
pub record EventData : Type 0 where
  pub id : ℕ
  pub name : Str
  pub description : Option Str
  pub embedding_model : Str
  pub embedding_status : EmbeddingStatus
  pub created_at : ℕ
  pub updated_at : ℕ

abbrev pub event_data : KnowledgeBase → EventData
event_data k = record {
  id = k.id;
  name = k.name;
  description = k.description;
  embedding_model = k.embedding_model;
  embedding_status = k.embedding_status;
  created_at = k.created_at;
  updated_at = k.updated_at;
}

pub data Event : Type 0 where
  base_created : EventData → Event
  base_updated : EventData → Event
  base_name_changed : ℕ → Str → Str → Event
  base_description_changed : ℕ → Option Str → Option Str → Event
  base_deleted : EventData → Event
  base_api_key_rotated : EventData → Event
  base_model_change_requested : ℕ → Str → Str → Event
  base_reembedding_requested : ℕ → Str → Event

pub record Values : Type 0 where
  pub equals : Str → Str → Bool
  pub equals_iff : (a b : Str) → (equals a b ≡ true) ↔ (a ≡ b)
  -- `updatedAt` behind `touch()`, from what it was and the clock
  pub touched : ℕ → ℕ → ℕ

abbrev pub Change : Type 0
Change = KnowledgeBase × List Event

-- `===` of two `string | null`
abbrev pub same_text : Option Str → Option Str → Bool
same_text none none = true
same_text (some a) (some b) = str_eq a b
same_text _ _ = false

unfoldable pub create : KnowledgeBase → Change
create k = (k, base_created (event_data k) ∷ [])

unfoldable pub delete : KnowledgeBase → Change
delete k = (k, base_deleted (event_data k) ∷ [])

module _ (kit : Values) (now : ℕ) where
  abbrev pub touch : KnowledgeBase → KnowledgeBase
  touch k = record k { updated_at = kit.touched k.updated_at now }

  unfoldable pub change_name : Str → KnowledgeBase → Change
  change_name new k =
      if kit.equals k.name new
      then (k, [])
      else (touch (record k { name = new }), base_name_changed k.id k.name new ∷ [])

  unfoldable pub change_description : Option Str → KnowledgeBase → Change
  change_description new k = if same_text k.description new then (k, []) else (
    touch (record k { description = new }),
    base_description_changed k.id k.description new ∷ [],
  )

  -- `if (value !== undefined) change(value)`
  abbrev pub when_given :
      {A : Type 0} → Option A → (A → KnowledgeBase → Change) → KnowledgeBase → Change
  when_given none change k = (k, [])
  when_given (some v) change k = change v k

  unfoldable pub update : Option Str → Option (Option Str) → KnowledgeBase → Change
  unfolding change_name change_description
  update name description k =
      let (k', renamed) = when_given name change_name k in
      let (k'', described) = when_given description change_description k' in
      (k'', renamed ++ (described ++ base_updated (event_data k'') ∷ []))

  unfoldable pub rotate_api_key : Str → KnowledgeBase → Change
  rotate_api_key new_hash k =
      let k' = touch (record k { api_key_hash = new_hash }) in
      (k', base_api_key_rotated (event_data k') ∷ [])

  unfoldable pub change_embedding_model : Str → KnowledgeBase → Change
  change_embedding_model new k = if kit.equals k.embedding_model new then (k, []) else (
    touch (record k { embedding_model = new; embedding_status = reembedding }),
    base_model_change_requested k.id k.embedding_model new ∷ [],
  )

  unfoldable pub request_reembedding : KnowledgeBase → Change
  request_reembedding k = (
    touch (record k { embedding_status = reembedding }),
    base_reembedding_requested k.id k.embedding_model ∷ [],
  )

  unfoldable pub complete_reembedding : KnowledgeBase → Change
  complete_reembedding k = (touch (record k { embedding_status = ready }), [])

  unfoldable pub fail_reembedding : KnowledgeBase → Change
  fail_reembedding k = (touch (record k { embedding_status = unsuccessful }), [])
