-- ===== src/Documents/Processor/Failure.antt =====
-- A job whose chunking throws.
use shiori_api.Shared.{
  ℕ, ◌≡◌, refl, sym, ◌∙◌, ap, subst, true, false, not, Option, some, [], ◌∷◌, ◌++◌, append_assoc,
  ==_refl, filter,
}
use shiori_api.Exceptions.{Exception, invalid_value}
use shiori_api.Tenancy.{Result, err, upsert}
use shiori_api.Documents.Aggregate.{
  Document, pending, failed, reason_text, document_chunking_started, document_chunking_failed,
  touch,
}
use shiori_api.Documents.Store.{Store, loaded}
use shiori_api.Documents.Store.Lemmas.{
  IsRow, IsBuildable, has_id, build-loaded, upsert-IsRow, filter-upsert,
}
use shiori_api.Documents.Processor.{Worker, process, finish, finish_or_skip}
use shiori_api.Documents.Processor.Success.{started, begin-started, after_begin, job_of}

-- The aggregate that gave up, for a reason.
abbrev pub given_up : Worker → Document → Exception → Document
given_up w d e =
    touch w.kit w.now
      (record (started w d) { status = failed; failure_reason = some (w.message e) })

module _ (w : Worker) (d : Document) (buildable : IsBuildable w.kit d) (e : Exception)
    (accepted : w.kit.accepts reason_text (w.message e) ≡ true) where
  pub given_up-IsBuildable : IsBuildable w.kit (given_up w d e)
  given_up-IsBuildable = record {
    has_title = buildable.has_title;
    has_content = buildable.has_content;
    title = buildable.title;
    content = buildable.content;
    reason = accepted;
  }

  abbrev pub after_give_up : Store → Store
  after_give_up s = record s {
    documents = upsert (λ x. x.id) (given_up w d e) s.documents;
    builder = loaded (given_up w d e);
    events = s.events ++ document_chunking_failed (given_up w d e) ∷ [];
  }

  finish-given_up :
      (s : Store)
      → w.strategy d.content ≡ err e
      → finish w (started w d) (some d.knowledge_base_id) s ≡ (err e, after_give_up s)
  unfolding finish
  finish-given_up s cut =
      rw (cut, accepted, build-loaded w.kit (given_up w d e) given_up-IsBuildable) refl

  process-after_give_up :
      (s : Store) (ctx : Option ℕ)
      → IsRow d s.documents
      → d.status ≡ pending
      → w.strategy d.content ≡ err e
      → process w (job_of d) ctx s ≡ (err e, after_give_up (after_begin w d s))
  unfolding process finish_or_skip
  process-after_give_up s ctx row status cut =
      rw (begin-started w d buildable s row status, finish-given_up (after_begin w d s) cut) refl

  -- What a run that throws leaves: the row FAILED for the exception's message, and the other
  -- documents, the chunks and the queue as they were.
  pub record IsFailedFrom (s : Store) (out : Result (Unit {0}) × Store) : Type 0 where
    pub rethrown : out.0 ≡ err e
    pub row : IsRow (given_up w d e) (out.1).documents
    pub others :
        filter (λ x. not (has_id d.id x)) (out.1).documents
        ≡ filter (λ x. not (has_id d.id x)) s.documents
    pub rows : (out.1).chunks ≡ s.chunks
    pub jobs : (out.1).jobs ≡ s.jobs
    pub events :
        (out.1).events
        ≡ s.events
          ++ document_chunking_started (started w d)
            ∷ document_chunking_failed (given_up w d e)
            ∷ []

  -- The job of a PENDING document that the builder takes, for whose content the strategy throws an
  -- exception with a message that DocumentFailureReasonValueObject takes, rethrows it: the row becomes FAILED with
  -- the message as its reason, every other row of `documents` and all chunks are kept, and
  -- DocumentChunkingStarted and DocumentChunkingFailed are published.
  pub process-IsFailedFrom :
      (s : Store) (ctx : Option ℕ)
      → IsRow d s.documents
      → d.status ≡ pending
      → w.strategy d.content ≡ err e
      → IsFailedFrom s (process w (job_of d) ctx s)
  process-IsFailedFrom s ctx row status cut =
      let row' = upsert-IsRow d (started w d) refl s.documents row in
      let no_row = ap not (==_refl d.id) in
      subst (IsFailedFrom s) (sym (process-after_give_up s ctx row status cut)) (record {
        rethrown = refl;
        row = upsert-IsRow (started w d) (given_up w d e) refl (after_begin w d s).documents row';
        others =
            filter-upsert (started w d) (given_up w d e) refl (λ x. not (has_id d.id x))
              (after_begin w d s).documents no_row no_row row'
            ∙ filter-upsert d (started w d) refl (λ x. not (has_id d.id x)) s.documents no_row
                no_row row;
        rows = refl;
        jobs = refl;
        events = append_assoc s.events _ _;
      })

process-refused :
    (w : Worker) (d : Document) (buildable : IsBuildable w.kit d) (e : Exception)
    → w.kit.accepts reason_text (w.message e) ≡ false
    → (s : Store) (ctx : Option ℕ) → IsRow d s.documents
    → d.status ≡ pending
    → w.strategy d.content ≡ err e
    → process w (job_of d) ctx s ≡ (err invalid_value, after_begin w d s)
unfolding process finish_or_skip finish
process-refused w d buildable e refused s ctx row status cut =
    rw (begin-started w d buildable s row status, cut, refused) refl

-- An exception whose message DocumentFailureReasonValueObject refuses makes the catch block throw before it
-- saves: the job ends with that other exception, and the row stays CHUNKING as `begin` left it.
pub process_stuck :
    (w : Worker) (d : Document) (buildable : IsBuildable w.kit d) (e : Exception)
    → w.kit.accepts reason_text (w.message e) ≡ false
    → (s : Store) (ctx : Option ℕ) → IsRow d s.documents
    → d.status ≡ pending
    → w.strategy d.content ≡ err e
    → (process w (job_of d) ctx s).0 ≡ err invalid_value
      × IsRow (started w d) (process w (job_of d) ctx s).1.documents
process_stuck w d buildable e refused s ctx row status cut =
    let out = process-refused w d buildable e refused s ctx row status cut in
    (
      ap (λ r. r.0) out,
      subst (λ r. IsRow (started w d) (r.1).documents) (sym out)
          (upsert-IsRow d (started w d) refl s.documents row),
    )
