-- ===== src/Documents/Commands/Update.antt =====
-- Updating and rechunking a document.
use shiori_api.Shared.{
  ℕ, ◌≡◌, refl, sym, ◌∙◌, ap, subst, Bool, false, not, Option, some, List, [], ◌∷◌, ◌++◌, ==_refl,
  ◌==◌, filter, filter-filter, filter-filter-none, arith, Str, ltb, length,
}
use shiori_api.Tenancy.{Result, ok, IfOk, scoped, upsert}
use shiori_api.Documents.Aggregate.{Document, Event, Kit, update, request_rechunk}
use shiori_api.Documents.Aggregate.Lifecycle.{updates, rechunks, apply, apply-IsMoved, IsMoved}
use shiori_api.Documents.Store.{Chunk, ChunkJob, Store, chunk_columns, loaded}
use shiori_api.Documents.Store.Lemmas.{
  IsRow, IsBuildable, has_id, assert_exists-row, build-loaded, upsert-IsRow, filter-upsert,
}
use shiori_api.Documents.Commands.{execute_update, execute_rechunk}
use shiori_api.Documents.Commands.Delete.{is_of}

-- the job of a document
abbrev pub job_of : Document → ChunkJob
job_of d = record { document_id = d.id; knowledge_base_id = d.knowledge_base_id }

-- the document's chunks in its knowledge base
abbrev pub own_chunk : Document → Chunk → Bool
own_chunk d = scoped chunk_columns d.knowledge_base_id (is_of d.id)

module _ (kit : Kit) (now : ℕ) (d d' : Document) (events : List Event) where
  -- the store behind a handler that drops the chunks and saves `d'`
  abbrev pub after_requeue : Store → Store
  after_requeue s = record s {
    documents = upsert (λ x. x.id) d' s.documents;
    chunks = filter (λ c. not (own_chunk d' c)) s.chunks;
    jobs = s.jobs ++ job_of d' ∷ [];
    builder = loaded d';
    events = s.events ++ events;
  }

  execute_update-requeue :
      (max : ℕ) (title : Option Str) (content : Str) (s : Store)
      → ltb max (length content) ≡ false
      → IsRow d s.documents
      → IsBuildable kit d
      → IsBuildable kit d'
      → d'.knowledge_base_id ≡ d.knowledge_base_id
      → update kit now title (some content) d ≡ ok (d', events)
      → execute_update kit now max
          (record { id = d.id; title = title; content = some content })
          (some d.knowledge_base_id)
          s
        ≡ (ok tt, after_requeue s)
  unfolding execute_update
  execute_update-requeue max title content s small row built built' same_kb updated =
      rw
        (
          small,
          assert_exists-row kit d s row built,
          updated,
          sym same_kb,
          build-loaded kit d' built',
        )
        refl

  execute_rechunk-requeue :
      (s : Store)
      → IsRow d s.documents
      → IsBuildable kit d
      → IsBuildable kit d'
      → d'.knowledge_base_id ≡ d.knowledge_base_id
      → request_rechunk kit now d ≡ ok (d', events)
      → execute_rechunk kit now d.id (some d.knowledge_base_id) s ≡ (ok tt, after_requeue s)
  unfolding execute_rechunk
  execute_rechunk-requeue s row built built' same_kb requested =
      rw (assert_exists-row kit d s row built, requested, sym same_kb, build-loaded kit d' built')
        refl

  -- What such a handler leaves: the new row, no chunk of the document, a job behind the queue.
  pub record IsRequeuedFrom (s : Store) (out : Result (Unit {0}) × Store) : Type 0 where
    pub done : out.0 ≡ ok tt
    pub row : IsRow d' (out.1).documents
    pub others :
        filter (λ x. not (has_id d.id x)) (out.1).documents
        ≡ filter (λ x. not (has_id d.id x)) s.documents
    pub no_chunk : filter (own_chunk d') (out.1).chunks ≡ []
    pub other_chunks :
        filter (λ c. not (own_chunk d' c)) (out.1).chunks
        ≡ filter (λ c. not (own_chunk d' c)) s.chunks
    pub jobs : (out.1).jobs ≡ s.jobs ++ job_of d' ∷ []
    pub published : (out.1).events ≡ s.events ++ events

  after_requeue-IsRequeuedFrom :
      (s : Store) → IsMoved d d' → IsRow d s.documents → IsRequeuedFrom s (ok tt, after_requeue s)
  after_requeue-IsRequeuedFrom s moved row = record {
    done = refl;
    row =
        subst (λ i. filter (has_id i) (upsert (λ x. x.id) d' s.documents) ≡ d' ∷ [])
          (sym moved.same_id) (upsert-IsRow d d' moved.same_id s.documents row);
    others =
        filter-upsert d d' moved.same_id (λ x. not (has_id d.id x)) s.documents
          (ap not (==_refl d.id)) (ap (λ i. not (i == d.id)) moved.same_id ∙ ap not (==_refl d.id))
          row;
    no_chunk = filter-filter-none (own_chunk d') _ s.chunks (λ c h. ground arith);
    other_chunks = filter-filter (λ c. not (own_chunk d' c)) _ s.chunks (λ c h. h);
    jobs = refl;
    published = refl;
  }

  update-IsMoved :
      (title content : Option Str) → update kit now title content d ≡ ok (d', events) → IsMoved d d'
  unfolding apply
  update-IsMoved title content updated =
      subst (IfOk (λ c. IsMoved d c.0)) updated (apply-IsMoved kit now (updates title content) d)

  request_rechunk-IsMoved : request_rechunk kit now d ≡ ok (d', events) → IsMoved d d'
  unfolding apply
  request_rechunk-IsMoved requested =
      subst (IfOk (λ c. IsMoved d c.0)) requested (apply-IsMoved kit now rechunks d)

  -- UpdateDocument with a content that is not too long, on a row of the knowledge base for which
  -- `update` gives a document that the builder takes: that document's row replaces the row, all other documents are
  -- kept, the document has no chunk left, the other chunks are kept, one job for the document is added to the
  -- queue, and the events of `update` are published.
  pub execute_update-IsRequeuedFrom :
      (max : ℕ) (title : Option Str) (content : Str) (s : Store)
      → ltb max (length content) ≡ false
      → IsRow d s.documents
      → IsBuildable kit d
      → IsBuildable kit d'
      → update kit now title (some content) d ≡ ok (d', events)
      → IsRequeuedFrom s (
          execute_update kit now max
            (record { id = d.id; title = title; content = some content })
            (some d.knowledge_base_id)
            s)
  execute_update-IsRequeuedFrom max title content s small row built built' updated =
      let moved = update-IsMoved title (some content) updated in
      subst (IsRequeuedFrom s)
        (sym (
          execute_update-requeue max title content s small row built built'
            moved.same_knowledge_base updated))
        (after_requeue-IsRequeuedFrom s moved row)

  -- RechunkDocument on a row of the knowledge base for which `requestRechunk` gives a document that
  -- the builder takes: that document's row replaces the row, all other documents are kept, the
  -- document has no chunk left, the other chunks are kept, one job for the document is added to
  -- the queue, and the events of `requestRechunk` are published.
  pub execute_rechunk-IsRequeuedFrom :
      (s : Store)
      → IsRow d s.documents
      → IsBuildable kit d
      → IsBuildable kit d'
      → request_rechunk kit now d ≡ ok (d', events)
      → IsRequeuedFrom s (execute_rechunk kit now d.id (some d.knowledge_base_id) s)
  execute_rechunk-IsRequeuedFrom s row built built' requested =
      let moved = request_rechunk-IsMoved requested in
      subst (IsRequeuedFrom s)
        (sym (execute_rechunk-requeue s row built built' moved.same_knowledge_base requested))
        (after_requeue-IsRequeuedFrom s moved row)
