-- ===== src/Documents/Tests.antt =====
-- A store with one document, and the theorems about the aggregate, the commands and the processor at it.
pub mod Purge
pub mod Requests
pub mod Interleavings
use shiori_api.Shared.{
  ◌+◌, ◌≡◌, refl, not, none, some, List, [], ◌∷◌, ◌++◌, codes, str_eq, str_eq_iff, filter, arith,
}
use shiori_api.Exceptions.{too_many_chunks, invalid_value}
use shiori_api.Tenancy.{err, IfOk}
use shiori_api.Chunking.{Piece, merge_segments, split_into_segments}
use shiori_api.Documents.Aggregate.{
  Document, pending, chunked, Kit, update, request_rechunk, document_updated,
  document_content_changed, document_rechunk_requested,
}
use shiori_api.Documents.Aggregate.Lifecycle.{
  starts, completes, apply, permitted, is_ok, IsCoherent, IsMoved, apply-permitted, apply-IsMoved,
  apply-IsCoherent,
}
use shiori_api.Documents.Store.{Chunk, Store, new_builder, is_blank, loaded}
use shiori_api.Documents.Store.Lemmas.{IsBuildable, IsRow, has_id}
use shiori_api.Documents.Commands.{
  CreateDocumentCommand, execute_create, execute_update, execute_rechunk, execute_delete,
}
use shiori_api.Documents.Commands.Create.{new_document, IsCreatedFrom, execute_create-IsCreatedFrom}
use shiori_api.Documents.Commands.Update.{
  IsRequeuedFrom, execute_update-IsRequeuedFrom, execute_rechunk-IsRequeuedFrom, own_chunk,
}
use shiori_api.Documents.Commands.Delete.{IsDeletedFrom, execute_delete-IsDeletedFrom}
use shiori_api.Documents.Processor.{Worker, recursive_chunking, process, begin, finish}
use shiori_api.Documents.Processor.Success.{IsChunkedFrom, process-IsChunkedFrom, job_of, started}
use shiori_api.Documents.Processor.Success.Rows.{AreDistinct}
use shiori_api.Documents.Processor.Failure.{
  IsFailedFrom, process-IsFailedFrom, process_stuck, given_up,
}
use shiori_api.Documents.Processor.Race.{finish_after_delete, no_document}
use shiori_api.Documents.Processor.Stale.{
  not_pending, same_content, update_same_content, create_after_use,
}

-- Value objects that refuse only the empty string.
abbrev pub kit : Kit
kit = record {
  accepts = λ kind s. not (is_blank s);
  equals = str_eq;
  equals_iff = str_eq_iff;
  touched = λ old now. now;
}

abbrev pub doc : Document
doc = record {
  id = 1;
  knowledge_base_id = 10;
  title = codes "Greeting";
  content = codes "Hi there.";
  status = pending;
  failure_reason = none;
  chunk_count = 0;
  created_at = 3;
  updated_at = 3;
}

abbrev pub doc_chunk : Chunk
doc_chunk = record {
  id = 50;
  document_id = 1;
  knowledge_base_id = 10;
  position = 0;
  text = codes "Hi there.";
  created_at = 4;
  updated_at = 4;
}

abbrev pub other_chunk : Chunk
other_chunk = record doc_chunk { id = 51; document_id = 2; knowledge_base_id = 20 }

abbrev pub store : Store
store = record {
  documents = doc ∷ record doc { id = 2; knowledge_base_id = 20 } ∷ [];
  chunks = other_chunk ∷ [];
  jobs = [];
  events = [];
  builder = new_builder;
}

abbrev pub worker : Worker
worker = record {
  kit = kit;
  strategy = recursive_chunking 5;
  message = λ e. codes "Error";
  uuid = λ n. 100 + n;
  now = 7;
}

pub doc_buildable : IsBuildable kit doc
doc_buildable = record {
  has_title = refl;
  has_content = refl;
  title = refl;
  content = refl;
  reason = refl;
}

abbrev pieces : List Piece
pieces = record { text = codes "Hi there."; position = 0 } ∷ []

distinct : AreDistinct worker doc
distinct n m le = ground arith

process-IsChunkedFrom_example :
    IsChunkedFrom worker doc doc_buildable store pieces (process worker (job_of doc) none store)
unfolding recursive_chunking merge_segments split_into_segments
process-IsChunkedFrom_example =
    process-IsChunkedFrom worker doc doc_buildable pieces store none refl refl refl (refl, tt)
      distinct ((λ m le. ground arith), tt)

abbrev failing : Worker
failing = record worker { strategy = recursive_chunking 0 }

process-IsFailedFrom_example :
    IsFailedFrom failing doc doc_buildable
      (too_many_chunks 1 0)
      refl
      store
      (process failing (job_of doc) none store)
unfolding recursive_chunking merge_segments split_into_segments
process-IsFailedFrom_example =
    process-IsFailedFrom failing doc doc_buildable (too_many_chunks 1 0) refl store none refl refl
      refl

-- an exception without a message
abbrev silent : Worker
silent = record failing { message = λ e. [] }

process_stuck_example :
    (process silent (job_of doc) none store).0 ≡ err invalid_value
    × IsRow (started silent doc) (process silent (job_of doc) none store).1.documents
unfolding recursive_chunking merge_segments split_into_segments
process_stuck_example =
    process_stuck silent doc doc_buildable (too_many_chunks 1 0) refl store none refl refl refl

finish_after_delete_example :
    let begun = (begin worker 1 (some 10) store).1 in
    let deleted = (execute_delete kit 8 1 (some 10) begun).1 in
    let finished = finish worker (started worker doc) (some 10) deleted in
    (filter (has_id 1) deleted.documents ≡ [])
    × (finished.0 ≡ err no_document)
    × IsRow (given_up worker doc no_document) (finished.1).documents
unfolding recursive_chunking merge_segments split_into_segments
finish_after_delete_example =
    finish_after_delete worker doc doc_buildable (record { text = codes "Hi there."; position = 0 })
      [] store 8 refl refl refl (refl, tt) refl

abbrev done : Document
done = record doc { status = chunked; chunk_count = 1 }

done_buildable : IsBuildable kit done
done_buildable = record {
  has_title = refl;
  has_content = refl;
  title = refl;
  content = refl;
  reason = refl;
}

-- the store behind the first run
abbrev store_done : Store
store_done = record store { documents = done ∷ []; chunks = doc_chunk ∷ other_chunk ∷ [] }

update_same_content_example :
    let updated = (execute_update kit 7 20 (same_content done) (some 10) store_done).1 in
    let processed = process worker (job_of done) none updated in
    (updated.jobs ≡ [] ++ job_of done ∷ [])
    × (processed.0 ≡ err (not_pending chunked))
    × IsRow done (processed.1).documents
    × (filter (own_chunk done) (processed.1).chunks ≡ [])
update_same_content_example =
    update_same_content worker done done_buildable 20 store_done none refl refl refl

abbrev rewritten : Document
rewritten = record done {
  content = codes "Bye.";
  status = pending;
  chunk_count = 0;
  updated_at = 7;
}

rewritten_buildable : IsBuildable kit rewritten
rewritten_buildable = record {
  has_title = refl;
  has_content = refl;
  title = refl;
  content = refl;
  reason = refl;
}

execute_update-IsRequeuedFrom_example :
    IsRequeuedFrom kit 7 done rewritten
      (document_content_changed 1 (codes "Hi there.") (codes "Bye.")
        ∷ document_updated rewritten
        ∷ [])
      store_done
      (execute_update kit 7 20
        (record { id = 1; title = none; content = some (codes "Bye.") })
        (some 10)
        store_done)
unfolding update
execute_update-IsRequeuedFrom_example =
    execute_update-IsRequeuedFrom kit 7 done rewritten
      (document_content_changed 1 (codes "Hi there.") (codes "Bye.")
        ∷ document_updated rewritten
        ∷ [])
      20 none (codes "Bye.") store_done refl refl done_buildable rewritten_buildable refl

abbrev requested : Document
requested = record done { status = pending; chunk_count = 0; updated_at = 7 }

requested_buildable : IsBuildable kit requested
requested_buildable = record {
  has_title = refl;
  has_content = refl;
  title = refl;
  content = refl;
  reason = refl;
}

execute_rechunk-IsRequeuedFrom_example :
    IsRequeuedFrom kit 7 done requested
      (document_rechunk_requested requested ∷ [])
      store_done
      (execute_rechunk kit 7 1 (some 10) store_done)
unfolding request_rechunk
execute_rechunk-IsRequeuedFrom_example =
    execute_rechunk-IsRequeuedFrom kit 7 done requested (document_rechunk_requested requested ∷ [])
      store_done refl done_buildable requested_buildable refl

execute_delete-IsDeletedFrom_example :
    IsDeletedFrom kit 7 done done_buildable store_done (execute_delete kit 7 1 (some 10) store_done)
execute_delete-IsDeletedFrom_example =
    execute_delete-IsDeletedFrom kit 7 done done_buildable store_done refl

abbrev command : CreateDocumentCommand
command = record { knowledge_base_id = 10; title = codes "New"; content = codes "Text." }

execute_create-IsCreatedFrom_example :
    IsCreatedFrom kit 7 3 20 command store (execute_create kit 7 20 3 command (some 10) store)
execute_create-IsCreatedFrom_example =
    execute_create-IsCreatedFrom kit 7 3 20 command store refl
      (record { has_title = refl; has_content = refl; title = refl; content = refl; reason = refl })
      refl

-- the builder as the mapping of the CHUNKED row leaves it
abbrev store_used : Store
store_used = record store_done { builder = loaded done }

create_after_use_example :
    let d = new_document kit 7 3 20 command store_used in
    let created = (execute_create kit 7 20 3 command (some 10) store_used).1 in
    let processed = process worker (job_of d) none created in
    (created.jobs ≡ [] ++ job_of d ∷ [])
    × (processed.0 ≡ err (not_pending chunked))
    × IsRow d (processed.1).documents
create_after_use_example =
    create_after_use worker 3 20 command store_used none refl refl
      (record { has_title = refl; has_content = refl; title = refl; content = refl; reason = refl })
      refl

apply-permitted_example :
    is_ok (apply kit 7 (completes 4) doc) ≡ permitted kit (completes 4) pending
apply-permitted_example = apply-permitted kit 7 (completes 4) doc

apply-IsMoved_example : IfOk (λ c. IsMoved doc c.0) (apply kit 7 starts doc)
apply-IsMoved_example = apply-IsMoved kit 7 starts doc

apply-IsCoherent_example : IfOk (λ c. IsCoherent c.0) (apply kit 7 starts doc)
apply-IsCoherent_example =
    apply-IsCoherent kit 7 starts doc (record { reason = refl; count = λ h. refl })
