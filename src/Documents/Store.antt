-- ===== src/Documents/Store.antt =====
-- What the handlers of the documents context share: the tables behind the repositories, the job queue,
-- the published events, and the one DocumentBuilder. (src/contexts/documents/domain/builders,
-- src/contexts/documents/infrastructure/persistence/typeorm.)
--
-- The DocumentBuilder is a provider of the module, so every handler and the repositories' mapper use
-- the same object, and a field that a use does not set keeps what an earlier use left there.
-- The tables are lists of rows under `Tenancy.table`; the foreign key of `chunks` is checked, and
-- deleting a document deletes its chunks, as the migration declares. An action takes the ambient
-- knowledge base and the store, and what it wrote before it throws stays written.
pub mod Lemmas
pub mod Rows
pub mod Ownership
pub mod Chunks
use shiori_api.Shared.{
  ℕ, Bool, true, false, not, ◌&&◌, ◌||◌, Option, none, some, List, [], ◌∷◌, ◌++◌, Str, codes, ◌==◌,
  if◌then◌else◌, filter, find, map,
}
use shiori_api.Exceptions.{document_not_found, field_is_required, invalid_value, foreign}
use shiori_api.Tenancy.{
  Result, ok, err, Context, Columns, require, table, tenant_find, tenant_save, tenant_delete,
  tenant_delete_id, upsert,
}
pub use shiori_api.Tenancy.Action.{
  Action, continue, ◌>>=◌, ◌>>◌, pure, lift, run, ambient, reading, resume, attempt,
}
use shiori_api.Documents.Aggregate.{
  DocumentStatus, pending, Document, Event, Kit, title_text, content_text, reason_text,
}

pub record Chunk : Type 0 where
  pub id : ℕ
  pub document_id : ℕ
  pub knowledge_base_id : ℕ
  pub position : ℕ
  pub text : Str
  pub created_at : ℕ
  pub updated_at : ℕ

-- The payload of a `chunk-document` job.
pub record ChunkJob : Type 0 where
  pub document_id : ℕ
  pub knowledge_base_id : ℕ

-- The fields of the builder; a title or content that was never set is the empty string, which
-- `validate` refuses as it refuses `undefined`.
pub record DocumentBuilder : Type 0 where
  pub id : ℕ
  pub knowledge_base_id : ℕ
  pub title : Str
  pub content : Str
  pub status : DocumentStatus
  pub failure_reason : Option Str
  pub chunk_count : ℕ
  pub created_at : ℕ
  pub updated_at : ℕ

abbrev pub new_builder : DocumentBuilder
new_builder = record {
  id = 0;
  knowledge_base_id = 0;
  title = [];
  content = [];
  status = pending;
  failure_reason = none;
  chunk_count = 0;
  created_at = 0;
  updated_at = 0;
}

pub record Store : Type 0 where
  pub documents : List Document
  pub chunks : List Chunk
  pub jobs : List ChunkJob
  pub events : List Event
  pub builder : DocumentBuilder

abbrev pub document_columns : Columns Document
document_columns = record {
  id = λ d. d.id;
  knowledge_base_id = λ d. d.knowledge_base_id;
  with_knowledge_base_id = λ kb d. record d { knowledge_base_id = kb };
}

abbrev pub chunk_columns : Columns Chunk
chunk_columns = record {
  id = λ c. c.id;
  knowledge_base_id = λ c. c.knowledge_base_id;
  with_knowledge_base_id = λ kb c. record c { knowledge_base_id = kb };
}

abbrev pub M : Type 0 → Type 0
M A = Action Store A

replace_documents : Result (List Document) → Store → Result (Unit {0}) × Store
replace_documents (ok rows) s = (ok tt, record s { documents = rows })
replace_documents (err e) s = (err e, s)

replace_chunks : Result (List Chunk) → Store → Result (Unit {0}) × Store
replace_chunks (ok rows) s = (ok tt, record s { chunks = rows })
replace_chunks (err e) s = (err e, s)

with_documents : (Context → List Document → Result (List Document)) → M (Unit {0})
unfolding replace_documents
with_documents change ctx s = replace_documents (change ctx s.documents) s

with_chunks : (Context → List Chunk → Result (List Chunk)) → M (Unit {0})
unfolding replace_chunks
with_chunks change ctx s = replace_chunks (change ctx s.chunks) s

abbrev pub is_blank : Str → Bool
is_blank [] = true
is_blank (c ∷ s) = false

abbrev pub accepts_reason : Kit → Option Str → Bool
accepts_reason kit none = true
accepts_reason kit (some r) = kit.accepts reason_text r

-- `build`: `validate`, then the value objects.
unfoldable pub build : Kit → DocumentBuilder → Result Document
build kit b =
    if is_blank b.title
    then err (field_is_required (codes "title"))
    else if is_blank b.content
    then err (field_is_required (codes "content"))
    else if kit.accepts title_text b.title
        && (kit.accepts content_text b.content && accepts_reason kit b.failure_reason)
    then ok (record {
      id = b.id;
      knowledge_base_id = b.knowledge_base_id;
      title = b.title;
      content = b.content;
      status = b.status;
      failure_reason = b.failure_reason;
      chunk_count = b.chunk_count;
      created_at = b.created_at;
      updated_at = b.updated_at;
    })
    else err invalid_value

-- The builder behind the nine `with…` calls of the mapper.
abbrev pub loaded : Document → DocumentBuilder
loaded d = record {
  id = d.id;
  knowledge_base_id = d.knowledge_base_id;
  title = d.title;
  content = d.content;
  status = d.status;
  failure_reason = d.failure_reason;
  chunk_count = d.chunk_count;
  created_at = d.created_at;
  updated_at = d.updated_at;
}

module _ (kit : Kit) where
  -- DocumentTypeOrmMapper.toDomain
  unfoldable pub to_domain : Document → M Document
  unfolding build
  to_domain entity ctx s = (build kit (loaded entity), record s { builder = loaded entity })

  -- `entity ? this.mapper.toDomain(entity) : null`
  to_domain_first : List Document → M (Option Document)
  unfolding to_domain
  to_domain_first [] = pure none
  to_domain_first (entity ∷ _) = do d ← to_domain entity; pure (some d)

  unfoldable pub find_document : ℕ → M (Option Document)
  unfolding to_domain_first tenant_find
  find_document id = do
    rows ← reading (λ ctx s.
        tenant_find document_columns (table (λ d. d.id)) ctx (λ d. d.id == id) s.documents)
    to_domain_first rows

  -- AssertDocumentExistsService
  or_not_found : ℕ → Option Document → M Document
  or_not_found id none = lift (err (document_not_found id))
  or_not_found id (some d) = pure d

  unfoldable pub assert_exists : ℕ → M Document
  unfolding find_document or_not_found
  assert_exists id = do found ← find_document id; or_not_found id found

  -- DocumentTypeOrmMapper.toPersistence copies the fields; the row that was saved is mapped back.
  unfoldable pub save_document : Document → M Document
  unfolding to_domain with_documents tenant_save
  save_document d = do
    kb ← ambient
    with_documents (λ ctx. tenant_save document_columns (table (λ d. d.id)) ctx d)
    to_domain (record d { knowledge_base_id = kb })

-- The foreign key of `chunks` deletes the chunks of a document row that goes.
unfoldable pub without_chunks_of : List Document → List Chunk → List Chunk
without_chunks_of [] cs = cs
without_chunks_of (d ∷ ds) cs = filter (λ c. not (c.document_id == d.id)) (without_chunks_of ds cs)

unfoldable pub delete_document : ℕ → M (Unit {0})
unfolding with_documents with_chunks without_chunks_of tenant_find tenant_delete_id
delete_document id = do
  gone ←
      reading (λ ctx s.
        tenant_find document_columns (table (λ d. d.id)) ctx (λ d. d.id == id) s.documents)
  with_documents (λ ctx. tenant_delete_id document_columns (table (λ d. d.id)) ctx id)
  with_chunks (λ ctx cs. ok (without_chunks_of gone cs))

-- ChunkTypeOrmWriteRepository
unfoldable pub delete_chunks : ℕ → M (Unit {0})
unfolding with_chunks tenant_delete
delete_chunks id =
    with_chunks
      (λ ctx. tenant_delete chunk_columns (table (λ c. c.id)) ctx (λ c. c.document_id == id))

unfoldable pub save_all : List Chunk → List Chunk → List Chunk
save_all [] rows = rows
save_all (c ∷ cs) rows = save_all cs (upsert (λ c. c.id) c rows)

-- every chunk names a document that is there
unfoldable pub all_owned : List Document → List Chunk → Bool
all_owned ds [] = true
all_owned ds (c ∷ cs) = elim (find (λ (d : Document). d.id == c.document_id) ds) [
  | none ↦ false
  | some d ↦ all_owned ds cs
]

unfoldable pub stamp_chunks : ℕ → List Chunk → List Chunk
stamp_chunks kb [] = []
stamp_chunks kb (c ∷ cs) = record c { knowledge_base_id = kb } ∷ stamp_chunks kb cs

-- A row that breaks the foreign key fails the whole insert.
unfoldable pub insert_chunks : List Chunk → M (Unit {0})
unfolding save_all all_owned
insert_chunks cs ctx s =
    if all_owned s.documents cs
    then (ok tt, record s { chunks = save_all cs s.chunks })
    else (err (foreign (codes "FK_chunks_document_id")), s)

unfoldable pub save_chunks : List Chunk → M (Unit {0})
unfolding insert_chunks stamp_chunks
save_chunks [] = pure tt
save_chunks (c ∷ cs) = do kb ← ambient; insert_chunks (stamp_chunks kb (c ∷ cs))

-- BullmqDocumentProcessingQueueService.enqueueChunking
unfoldable pub enqueue_chunking : ℕ → ℕ → M (Unit {0})
enqueue_chunking id kb ctx s =
    (ok tt, record s { jobs = s.jobs ++ record { document_id = id; knowledge_base_id = kb } ∷ [] })

-- `eventBus.publishAll(aggregate.getUncommittedEvents())`
unfoldable pub publish : List Event → M (Unit {0})
publish es ctx s = (ok tt, record s { events = s.events ++ es })
