-- ===== src/Documents/Processor/Success.antt =====
-- A job whose chunking goes through.
pub mod Rows
use shiori_api.Shared.{
  subst, not, ==_refl, ℕ, suc, ◌≤◌, ◌≡◌, refl, sym, ◌∙◌, ap, true, false, Option, some, none, List,
  [], ◌∷◌, ◌++◌, append_assoc, append-nil, ◌==◌, arith, filter, All, length,
}
use shiori_api.Tenancy.{Result, ok, require, upsert}
use shiori_api.Chunking.{Piece}
use shiori_api.Documents.Aggregate.{
  Document, pending, chunking, chunked, chunk_text, is_status, document_chunking_started,
  document_chunked, touch,
}
use shiori_api.Documents.Store.{
  Chunk, ChunkJob, Store, loaded, stamp_chunks, insert_chunks, save_chunks, save_all, publish,
}
use shiori_api.Documents.Store.Lemmas.{
  IsRow, IsBuildable, has_id, find_document-row, build-loaded, upsert-IsRow, filter-upsert,
  upsert-fresh, all_owned-row,
}
use shiori_api.Documents.Processor.{
  finish_or_skip, Worker, build_chunk, build_chunks, begin, finish, process, chunk_and_save,
  save_and_publish, start,
}
use shiori_api.Documents.Processor.Success.Rows.{row_for, rows_for, AreTexts, AreNew, AreDistinct}
use shiori_api.Documents.Processor.Success.Rows.{chunk_and_save-rows_for}

-- the job of a document
abbrev pub job_of : Document → ChunkJob
job_of d = record { document_id = d.id; knowledge_base_id = d.knowledge_base_id }

-- The aggregate of a job: started, and completed with so many chunks.
abbrev pub started : Worker → Document → Document
started w d = touch w.kit w.now (record d { status = chunking })

abbrev pub completed : Worker → Document → ℕ → Document
completed w d count =
    touch w.kit w.now
      (record (started w d) { status = chunked; chunk_count = count; failure_reason = none })

module _ (w : Worker) (d : Document) where
  -- the store behind `begin`
  abbrev pub after_begin : Store → Store
  after_begin s = record s {
    documents = upsert (λ x. x.id) (started w d) s.documents;
    builder = loaded (started w d);
    events = s.events ++ document_chunking_started (started w d) ∷ [];
  }

  -- the store behind `finish`
  abbrev pub after_finish : List Piece → Store → Store
  after_finish pieces s = record s {
    documents = upsert (λ x. x.id) (completed w d (length pieces)) s.documents;
    chunks = s.chunks ++ rows_for w d 0 pieces;
    builder = loaded (completed w d (length pieces));
    events = s.events ++ document_chunked (completed w d (length pieces)) ∷ [];
  }

  is_pending : d.status ≡ pending → is_status d.status pending ≡ true
  is_pending h = ground arith

  rows_for-started :
      (n : ℕ) (pieces : List Piece) → rows_for w (started w d) n pieces ≡ rows_for w d n pieces
  rows_for-started n [] = refl
  rows_for-started n (piece ∷ pieces) =
      ap (λ rest. row_for w d n piece ∷ rest) (rows_for-started (suc n) pieces)

module _ (w : Worker) (d : Document) (buildable : IsBuildable w.kit d) where
  pub started-IsBuildable : IsBuildable w.kit (started w d)
  started-IsBuildable = record {
    has_title = buildable.has_title;
    has_content = buildable.has_content;
    title = buildable.title;
    content = buildable.content;
    reason = buildable.reason;
  }

  completed-IsBuildable : (count : ℕ) → IsBuildable w.kit (completed w d count)
  completed-IsBuildable count = record {
    has_title = buildable.has_title;
    has_content = buildable.has_content;
    title = buildable.title;
    content = buildable.content;
    reason = refl;
  }

  pub begin-started :
      (s : Store)
      → IsRow d s.documents
      → d.status ≡ pending
      → begin w d.id (some d.knowledge_base_id) s ≡ (ok (some (started w d)), after_begin w d s)
  unfolding begin start publish
  begin-started s row status =
      rw
        (
          find_document-row w.kit d s row buildable,
          is_pending w d status,
          build-loaded w.kit (started w d) started-IsBuildable,
        )
        refl

  pub finish-completed :
      (pieces : List Piece) (s : Store)
      → IsRow (started w d) s.documents
      → w.strategy d.content ≡ ok pieces
      → AreTexts w d pieces
      → AreDistinct w d
      → AreNew w d 0 s.chunks
      → finish w (started w d) (some d.knowledge_base_id) s ≡ (ok tt, after_finish w d pieces s)
  unfolding finish save_and_publish publish
  finish-completed pieces s row cut texts distinct new =
      rw
        (
          chunk_and_save-rows_for w (started w d) pieces s row cut texts distinct new,
          rows_for-started w d 0 pieces,
          build-loaded w.kit (completed w d (length pieces))
              (completed-IsBuildable (length pieces)),
        )
        refl

  -- What a run that goes through leaves: the row CHUNKED with the number of pieces, the other
  -- documents as they were, and behind the chunks one row for each piece, in order.
  pub record IsChunkedFrom (s : Store) (pieces : List Piece) (out : Result (Unit {0}) × Store)
      : Type 0 where
    pub done : out.0 ≡ ok tt
    pub row : IsRow (completed w d (length pieces)) (out.1).documents
    pub others :
        filter (λ x. not (has_id d.id x)) (out.1).documents
        ≡ filter (λ x. not (has_id d.id x)) s.documents
    pub rows : (out.1).chunks ≡ s.chunks ++ rows_for w d 0 pieces
    pub jobs : (out.1).jobs ≡ s.jobs
    pub events :
        (out.1).events
        ≡ s.events
          ++ document_chunking_started (started w d)
            ∷ document_chunked (completed w d (length pieces))
            ∷ []

  process-after_finish :
      (pieces : List Piece) (s : Store) (ctx : Option ℕ)
      → IsRow d s.documents
      → d.status ≡ pending
      → w.strategy d.content ≡ ok pieces
      → AreTexts w d pieces
      → AreDistinct w d
      → AreNew w d 0 s.chunks
      → process w (job_of d) ctx s ≡ (ok tt, after_finish w d pieces (after_begin w d s))
  unfolding process finish_or_skip
  process-after_finish pieces s ctx row status cut texts distinct new =
      rw
        (
          begin-started s row status,
          finish-completed pieces (after_begin w d s)
              (upsert-IsRow d (started w d) refl s.documents row) cut texts distinct new,
        )
        refl

  -- The job of a PENDING document that the builder takes, whose content the strategy cuts into non-empty
  -- pieces, succeeds, for UUIDs that are distinct and not taken: the document's row becomes
  -- CHUNKED with the number of pieces and no failure reason, every other row of `documents` is
  -- kept, a row for each piece, in order, is added to `chunks`, and DocumentChunkingStarted and
  -- DocumentChunked are published.
  pub process-IsChunkedFrom :
      (pieces : List Piece) (s : Store) (ctx : Option ℕ)
      → IsRow d s.documents
      → d.status ≡ pending
      → w.strategy d.content ≡ ok pieces
      → AreTexts w d pieces
      → AreDistinct w d
      → AreNew w d 0 s.chunks
      → IsChunkedFrom s pieces (process w (job_of d) ctx s)
  process-IsChunkedFrom pieces s ctx row status cut texts distinct new =
      let row' = upsert-IsRow d (started w d) refl s.documents row in
      let no_row = ap not (==_refl d.id) in
      subst (IsChunkedFrom s pieces)
        (sym (process-after_finish pieces s ctx row status cut texts distinct new))
        (record {
          done = refl;
          row =
              upsert-IsRow (started w d) (completed w d (length pieces)) refl
                (after_begin w d s).documents row';
          others =
              filter-upsert (started w d) (completed w d (length pieces)) refl
                (λ x. not (has_id d.id x)) (after_begin w d s).documents no_row no_row row'
              ∙ filter-upsert d (started w d) refl (λ x. not (has_id d.id x)) s.documents no_row
                  no_row row;
          rows = refl;
          jobs = refl;
          events = append_assoc s.events _ _;
        })
