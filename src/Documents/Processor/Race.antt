-- ===== src/Documents/Processor/Race.antt =====
-- A deletion that runs while the worker is between `begin` and `finish`.
use shiori_api.Shared.{
  ℕ, ◌≡◌, refl, sym, ◌∙◌, ap, subst, true, some, List, [], ◌∷◌, ◌++◌, codes, filter,
}
use shiori_api.Exceptions.{Exception, foreign}
use shiori_api.Tenancy.{ok, err, upsert}
use shiori_api.Chunking.{Piece}
use shiori_api.Documents.Aggregate.{Document, pending, document_chunking_failed, reason_text}
use shiori_api.Documents.Store.{loaded, Store}
use shiori_api.Documents.Store.Lemmas.{
  IsRow, IsBuildable, has_id, build-loaded, upsert-IsRow, upsert-new, find-none,
}
use shiori_api.Documents.Commands.{execute_delete}
use shiori_api.Documents.Commands.Delete.{after_delete, execute_delete-row, no_row_left}
use shiori_api.Documents.Processor.{Worker, begin, finish}
use shiori_api.Documents.Processor.Success.{
  started, begin-started, after_begin, started-IsBuildable,
}
use shiori_api.Documents.Processor.Success.Rows.{build_chunks-rows_for, AreTexts}
use shiori_api.Documents.Processor.Failure.{given_up, given_up-IsBuildable}

-- the database's refusal of a chunk without a document
abbrev pub no_document : Exception
no_document = foreign (codes "FK_chunks_document_id")

module _ (w : Worker) (d : Document) (buildable : IsBuildable w.kit d) where
  -- the store behind a `finish` without the row
  after_orphan : Store → Store
  after_orphan s = record s {
    documents = upsert (λ x. x.id) (given_up w d no_document) s.documents;
    builder = loaded (given_up w d no_document);
    events = s.events ++ document_chunking_failed (given_up w d no_document) ∷ [];
  }

  finish-orphan :
      (piece : Piece) (pieces : List Piece) (s : Store)
      → filter (has_id d.id) s.documents ≡ []
      → w.strategy d.content ≡ ok (piece ∷ pieces)
      → AreTexts w d (piece ∷ pieces)
      → w.kit.accepts reason_text (w.message no_document) ≡ true
      → finish w (started w d) (some d.knowledge_base_id) s ≡ (err no_document, after_orphan s)
  unfolding finish after_orphan
  finish-orphan piece pieces s gone cut texts accepted =
      rw
        (
          cut,
          build_chunks-rows_for w (started w d) 0 (piece ∷ pieces) (some d.knowledge_base_id) s
              texts,
          find-none d.id s.documents gone,
          accepted,
          build-loaded w.kit (given_up w d no_document)
              (given_up-IsBuildable w d buildable no_document accepted),
        )
        refl

  -- A document that is deleted while its job is between `begin` and `finish` comes back: the insertion of its
  -- chunks breaks the foreign key, the catch block saves the aggregate, and `documents` has the
  -- row again, FAILED with the text of that error as its reason.
  pub finish_after_delete :
      (piece : Piece) (pieces : List Piece) (s : Store) (now : ℕ)
      → IsRow d s.documents
      → d.status ≡ pending
      → w.strategy d.content ≡ ok (piece ∷ pieces)
      → AreTexts w d (piece ∷ pieces)
      → w.kit.accepts reason_text (w.message no_document) ≡ true
      → let frame = some d.knowledge_base_id in
        let begun = (begin w d.id frame s).1 in
        let deleted = (execute_delete w.kit now d.id frame begun).1 in
        let finished = finish w (started w d) frame deleted in
        (filter (has_id d.id) deleted.documents ≡ [])
        × (finished.0 ≡ err no_document)
        × IsRow (given_up w d no_document) (finished.1).documents
  unfolding after_orphan
  finish_after_delete piece pieces s now row status cut texts accepted =
      let begun = after_begin w d s in
      let row' = upsert-IsRow d (started w d) refl s.documents row in
      let built = started-IsBuildable w d buildable in
      let left = after_delete w.kit now (started w d) built begun in
      let gone = no_row_left w.kit now (started w d) built begun.documents row' in
      let deleted =
        ap (λ b. (execute_delete w.kit now d.id (some d.knowledge_base_id) b.1).1)
          (begin-started w d buildable s row status)
        ∙ ap (λ r. r.1) (execute_delete-row w.kit now (started w d) built begun row') in
      let back =
        subst (λ r. (r.0 ≡ err no_document) × IsRow (given_up w d no_document) (r.1).documents)
          (sym (finish-orphan piece pieces left gone cut texts accepted))
          (refl, upsert-new (given_up w d no_document) left.documents gone) in
      subst
        (λ x.
          (filter (has_id d.id) x.documents ≡ [])
          × ((finish w (started w d) (some d.knowledge_base_id) x).0 ≡ err no_document)
          × IsRow (given_up w d no_document)
              (finish w (started w d) (some d.knowledge_base_id) x).1.documents)
        (sym deleted) (gone, back.0, back.1)
