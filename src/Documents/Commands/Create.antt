-- ===== src/Documents/Commands/Create.antt =====
-- Creating a document.
use shiori_api.Shared.{
  ℕ, ◌≡◌, refl, sym, subst, false, not, some, [], ◌∷◌, ◌++◌, filter, ltb, length,
}
use shiori_api.Tenancy.{Result, ok, upsert}
use shiori_api.Documents.Aggregate.{Document, Kit, document_created}
use shiori_api.Documents.Store.{DocumentBuilder, Store, loaded}
use shiori_api.Documents.Store.Lemmas.{
  IsRow, IsBuildable, has_id, build-loaded, upsert-new, filter-upsert-new,
}
use shiori_api.Documents.Commands.{
  CreateDocumentCommand, CreateDocumentResult, with_command, execute_create,
}
use shiori_api.Documents.Commands.Update.{job_of}

-- The document that `build` makes of the builder's fields.
abbrev pub built : DocumentBuilder → Document
built b = record {
  id = b.id;
  knowledge_base_id = b.knowledge_base_id;
  title = b.title;
  content = b.content;
  status = b.status;
  failure_reason = b.failure_reason;
  chunk_count = b.chunk_count;
  created_at = b.created_at;
  updated_at = b.updated_at;
}

module _ (kit : Kit) (now id max : ℕ) (command : CreateDocumentCommand) where
  -- The new document: the command's fields, and the status, failure reason and chunk count that the
  -- builder has from its last use.
  abbrev pub new_document : Store → Document
  new_document s = built (with_command kit now id command s.builder)

  abbrev pub after_create : Store → Store
  after_create s = record s {
    documents = upsert (λ x. x.id) (new_document s) s.documents;
    jobs = s.jobs ++ job_of (new_document s) ∷ [];
    builder = loaded (new_document s);
    events = s.events ++ document_created (new_document s) ∷ [];
  }

  pub execute_create-created :
      (s : Store)
      → ltb max (length command.content) ≡ false
      → IsBuildable kit (new_document s)
      → execute_create kit now max id command (some command.knowledge_base_id) s
        ≡ (ok (record { id = id; status = s.builder.status }), after_create s)
  unfolding execute_create
  execute_create-created s small buildable =
      rw (small, build-loaded kit (new_document s) buildable)
        (rw (build-loaded kit (new_document s) buildable) refl)

  -- What a creation leaves.
  pub record IsCreatedFrom (s : Store) (out : Result CreateDocumentResult × Store) : Type 0 where
    pub done : out.0 ≡ ok (record { id = id; status = s.builder.status })
    pub row : IsRow (new_document s) (out.1).documents
    pub others :
        filter (λ x. not (has_id id x)) (out.1).documents
        ≡ filter (λ x. not (has_id id x)) s.documents
    pub chunks : (out.1).chunks ≡ s.chunks
    pub jobs : (out.1).jobs ≡ s.jobs ++ job_of (new_document s) ∷ []
    pub events : (out.1).events ≡ s.events ++ document_created (new_document s) ∷ []

  -- CreateDocument in the frame of its knowledge base, with a content that is not too long, fields that
  -- the builder takes and an identifier that no row has, adds a row with the command's fields,
  -- keeps the other rows and all chunks, adds one job for it and publishes DocumentCreated.
  -- The status, failure reason and chunk count of the row are those of the builder's last use.
  pub execute_create-IsCreatedFrom :
      (s : Store)
      → ltb max (length command.content) ≡ false
      → IsBuildable kit (new_document s)
      → filter (has_id id) s.documents ≡ []
      → IsCreatedFrom s (execute_create kit now max id command (some command.knowledge_base_id) s)
  execute_create-IsCreatedFrom s small buildable absent =
      subst (IsCreatedFrom s) (sym (execute_create-created s small buildable)) (record {
        done = refl;
        row = upsert-new (new_document s) s.documents absent;
        others = filter-upsert-new (new_document s) s.documents absent;
        chunks = refl;
        jobs = refl;
        events = refl;
      })
