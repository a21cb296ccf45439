-- ===== src/Documents/Processor/Stale.antt =====
-- Jobs for documents that are not PENDING when the worker takes them up.
use shiori_api.Shared.{
  ℕ, ◌≡◌, refl, sym, ◌∙◌, ap, subst, false, Option, none, some, [], ◌∷◌, ◌++◌, codes, filter, ltb,
  length,
}
use shiori_api.Exceptions.{Exception, invalid_status_transition}
use shiori_api.Tenancy.{ok, err}
use shiori_api.Documents.Aggregate.{
  Document, DocumentStatus, pending, chunking, chunked, is_status, status_value, update,
  document_updated,
}
use shiori_api.Documents.Store.{Store, loaded}
use shiori_api.Documents.Store.Lemmas.{IsRow, IsBuildable, has_id, find_document-row}
use shiori_api.Documents.Commands.{
  UpdateDocumentCommand, CreateDocumentCommand, execute_update, execute_create,
}
use shiori_api.Documents.Commands.Update.{own_chunk, execute_update-IsRequeuedFrom}
use shiori_api.Documents.Commands.Create.{new_document, execute_create-IsCreatedFrom}
use shiori_api.Documents.Processor.{Worker, process, finish_or_skip, begin}
use shiori_api.Documents.Processor.Success.{job_of}

-- The exception of `startChunking` for a status
abbrev pub not_pending : DocumentStatus → Exception
not_pending s = invalid_status_transition (status_value s) (codes "CHUNKING")

-- the command that sets a document's content to what it is
abbrev pub same_content : Document → UpdateDocumentCommand
same_content d = record { id = d.id; title = none; content = some d.content }

module _ (w : Worker) (d : Document) (buildable : IsBuildable w.kit d) where
  -- The job of a document that is not PENDING fails with the status transition exception and changes no
  -- document, chunk, job or event.
  pub process_rejects :
      (s : Store) (ctx : Option ℕ)
      → IsRow d s.documents
      → is_status d.status pending ≡ false
      → process w (job_of d) ctx s ≡ (err (not_pending d.status), record s { builder = loaded d })
  unfolding process finish_or_skip begin
  process_rejects s ctx row status = rw (find_document-row w.kit d s row buildable, status) refl

  update_same :
      d.status ≡ chunked
      → update w.kit w.now none (some d.content) d ≡ ok (d, document_updated d ∷ [])
  unfolding update
  update_same status =
      rw ((w.kit.equals_iff d.content d.content).1 refl)
        (rw (ap (λ t. is_status t chunking) status) refl)

  -- UpdateDocument with the content that a CHUNKED document already has deletes the document's chunks and queues a job,
  -- while its row stays as it was, CHUNKED with its count of chunks; the job that it queued then
  -- fails with the status transition exception, and the row stays CHUNKED with no chunk.
  pub update_same_content :
      (max : ℕ) (s : Store) (ctx : Option ℕ)
      → IsRow d s.documents
      → d.status ≡ chunked
      → ltb max (length d.content) ≡ false
      → let updated =
          (execute_update w.kit w.now max (same_content d) (some d.knowledge_base_id) s).1 in
        let processed = process w (job_of d) ctx updated in
        (updated.jobs ≡ s.jobs ++ job_of d ∷ [])
        × (processed.0 ≡ err (not_pending chunked))
        × IsRow d (processed.1).documents
        × (filter (own_chunk d) (processed.1).chunks ≡ [])
  update_same_content max s ctx row status small =
      let frame = some d.knowledge_base_id in
      let requeued =
        execute_update-IsRequeuedFrom w.kit w.now d d (document_updated d ∷ []) max none d.content s
          small row buildable buildable (update_same status) in
      let updated = (execute_update w.kit w.now max (same_content d) frame s).1 in
      let rejected =
        process_rejects updated ctx requeued.row (ap (λ t. is_status t pending) status) in
      (
        requeued.jobs,
        ap (λ r. r.0) rejected ∙ ap (λ t. err (not_pending t)) status,
        subst (λ r. IsRow d (r.1).documents) (sym rejected) requeued.row,
        subst (λ r. filter (own_chunk d) (r.1).chunks ≡ []) (sym rejected) requeued.no_chunk,
      )

-- The document that CreateDocument makes while the builder still has the status of its last use, other than
-- PENDING, is stored with that status; the job that is queued for it fails with the status transition exception,
-- and the row stays as it was created.
pub create_after_use :
    (w : Worker) (id max : ℕ) (command : CreateDocumentCommand) (s : Store) (ctx : Option ℕ)
    → is_status s.builder.status pending ≡ false
    → ltb max (length command.content) ≡ false
    → IsBuildable w.kit (new_document w.kit w.now id max command s)
    → filter (has_id id) s.documents ≡ []
    → let d = new_document w.kit w.now id max command s in
      let frame = some command.knowledge_base_id in
      let created = (execute_create w.kit w.now max id command frame s).1 in
      let processed = process w (job_of d) ctx created in
      (created.jobs ≡ s.jobs ++ job_of d ∷ [])
      × (processed.0 ≡ err (not_pending s.builder.status))
      × IsRow d (processed.1).documents
create_after_use w id max command s ctx used small buildable absent =
    let d = new_document w.kit w.now id max command s in
    let created =
      execute_create-IsCreatedFrom w.kit w.now id max command s small buildable absent in
    let after = (execute_create w.kit w.now max id command (some command.knowledge_base_id) s).1 in
    let rejected = process_rejects w d buildable after ctx created.row used in
    (
      created.jobs,
      ap (λ r. r.0) rejected,
      subst (λ r. IsRow d (r.1).documents) (sym rejected) created.row,
    )
