-- ===== src/Documents/Commands.antt =====
-- The command handlers of src/contexts/documents/application/commands, and the services that they call.
-- `execute` runs in the knowledge base frame that the request, or the listener, has opened; the new
-- identifier and the clock are arguments.
pub mod Purge
pub mod Update
pub mod Create
pub mod Delete
pub mod Frame
use shiori_api.Shared.{
  ℕ, Bool, true, false, Option, none, some, List, [], ◌∷◌, Str, if◌then◌else◌, ltb, length, ◌==◌,
  suc, zero, ◌&&◌,
}
use shiori_api.Exceptions.{content_too_large, invalid_value}
use shiori_api.Tenancy.{Result, ok, err, require}
use shiori_api.Documents.Aggregate.{
  DocumentStatus, Document, Event, StringKind, title_text, content_text, Kit, Change, update,
  request_rechunk, create, delete,
}
use shiori_api.Documents.Store.{
  DocumentBuilder, Store, M, ◌>>=◌, ◌>>◌, pure, run, lift, ambient, reading, build, to_domain,
  assert_exists, save_document, delete_document, delete_chunks, enqueue_chunking, publish,
}

-- AssertDocumentContentNotTooLargeService, with DOCUMENTS_MAX_CONTENT_LENGTH
unfoldable pub assert_content_not_too_large : ℕ → Str → M (Unit {0})
assert_content_not_too_large max content =
    if ltb max (length content)
    then lift (err (content_too_large (length content) max))
    else pure tt

pub record CreateDocumentCommand : Type 0 where
  pub knowledge_base_id : ℕ
  pub title : Str
  pub content : Str

pub record UpdateDocumentCommand : Type 0 where
  pub id : ℕ
  pub title : Option Str
  pub content : Option Str

-- The constructors of the two commands make value objects of the texts.
unfoldable pub create_command : Kit → ℕ → Str → Str → Result CreateDocumentCommand
create_command kit kb title content =
    if kit.accepts title_text title && kit.accepts content_text content
    then ok (record { knowledge_base_id = kb; title = title; content = content })
    else err invalid_value

abbrev pub accepts_given : Kit → StringKind → Option Str → Bool
accepts_given kit text none = true
accepts_given kit text (some value) = kit.accepts text value

unfoldable pub update_command : Kit → ℕ → Option Str → Option Str → Result UpdateDocumentCommand
update_command kit id title content =
    if accepts_given kit title_text title && accepts_given kit content_text content
    then ok (record { id = id; title = title; content = content })
    else err invalid_value

pub record CreateDocumentResult : Type 0 where
  pub id : ℕ
  pub status : DocumentStatus

module _ (kit : Kit) (now : ℕ) where
  -- The chain of `with…` calls before `build`: status, failure reason and chunk count are not among
  -- them.
  abbrev pub with_command : ℕ → CreateDocumentCommand → DocumentBuilder → DocumentBuilder
  with_command id command b = record b {
    id = id;
    knowledge_base_id = command.knowledge_base_id;
    title = command.title;
    content = command.content;
    created_at = now;
    updated_at = now;
  }

  unfoldable pub build_new : ℕ → CreateDocumentCommand → M Document
  unfolding build
  build_new id command ctx s =
      let b = with_command id command s.builder in (build kit b, record s { builder = b })

  unfoldable pub execute_create : ℕ → ℕ → CreateDocumentCommand → M CreateDocumentResult
  unfolding assert_content_not_too_large build_new create save_document publish enqueue_chunking
  execute_create max id command = do
    assert_content_not_too_large max command.content
    document ← build_new id command
    _ ← save_document kit document
    publish ((create document).1)
    enqueue_chunking document.id document.knowledge_base_id
    pure (record { id = document.id; status = document.status })

  -- `if (value !== undefined) body(value)`
  when_defined : Option Str → (Str → M (Unit {0})) → M (Unit {0})
  when_defined none body = pure tt
  when_defined (some v) body = body v

  -- After `document.update` the handler writes, and it does the two steps on the chunks for every command
  -- that has a content.
  unfoldable pub execute_update : ℕ → UpdateDocumentCommand → M (Unit {0})
  unfolding when_defined assert_content_not_too_large assert_exists delete_chunks save_document
      publish enqueue_chunking
  execute_update max command = do
    when_defined command.content (assert_content_not_too_large max)
    found ← assert_exists kit command.id
    (document, events) ← lift (update kit now command.title command.content found)
    when_defined command.content (λ _. delete_chunks document.id)
    _ ← save_document kit document
    publish events
    when_defined command.content (λ _. enqueue_chunking document.id document.knowledge_base_id)

  unfoldable pub execute_rechunk : ℕ → M (Unit {0})
  unfolding assert_exists delete_chunks save_document publish enqueue_chunking
  execute_rechunk id = do
    found ← assert_exists kit id
    (document, events) ← lift (request_rechunk kit now found)
    delete_chunks document.id
    _ ← save_document kit document
    publish events
    enqueue_chunking document.id document.knowledge_base_id

  unfoldable pub execute_delete : ℕ → M (Unit {0})
  unfolding assert_exists delete delete_chunks delete_document publish
  execute_delete id = do
    document ← assert_exists kit id
    delete_chunks document.id
    delete_document document.id
    publish ((delete document).1)

-- DeleteDocumentsByKnowledgeBaseService. TypeORM's query builder, with its order and its `take`, is
-- `page_of`: at most so many of the rows that meet the condition.
abbrev pub delete_batch_size : ℕ
delete_batch_size = 100

module _ (kit : Kit) (page_of : ℕ → (Document → Bool) → List Document → List Document) where
  -- `entities.map((entity) => this.mapper.toDomain(entity))`
  to_domain_all : List Document → M (List Document)
  unfolding to_domain
  to_domain_all [] = pure []
  to_domain_all (entity ∷ entities) = do
    d ← to_domain kit entity
    ds ← to_domain_all entities
    pure (d ∷ ds)

  -- `findByCriteria` of the write repository: the items of the page of so many rows
  find_batch : ℕ → M (List Document)
  unfolding to_domain_all
  find_batch limit = do
    kb ← ambient
    entities ← reading (λ ctx s. ok (page_of limit (λ d. d.knowledge_base_id == kb) s.documents))
    to_domain_all entities

  unfoldable pub fetch_next_batch : M (List Document)
  unfolding find_batch
  fetch_next_batch = find_batch delete_batch_size

  unfoldable pub delete_batch : List Document → M (Unit {0})
  unfolding delete_chunks delete_document
  delete_batch [] = pure tt
  delete_batch (d ∷ ds) = do delete_chunks d.id; delete_document d.id; delete_batch ds

  abbrev pub is_empty : List Document → Bool
  is_empty [] = true
  is_empty (d ∷ ds) = false

  -- The do-while loop, on fuel; `none` when the fuel runs out.
  unfoldable pub delete_loop : ℕ → M (Option (Unit {0}))
  unfolding fetch_next_batch delete_batch
  delete_loop zero = pure none
  delete_loop (suc fuel) = do
    page ← fetch_next_batch
    delete_batch page
    (let rest = delete_loop fuel in if is_empty page then pure (some tt) else rest)

  -- KnowledgeBaseDeletedListener: the loop in a frame of its own
  unfoldable pub on_knowledge_base_deleted : ℕ → ℕ → M (Option (Unit {0}))
  unfolding delete_loop
  on_knowledge_base_deleted fuel kb = run kb (delete_loop fuel)
