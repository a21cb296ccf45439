-- ===== src/Documents/Processor.antt =====
-- ChunkDocumentProcessor (src/contexts/documents/infrastructure/processors/chunk-document.processor.ts). A job
-- runs in two phases, `begin` up to the first publication and `finish` from there on, since other
-- commands can run in between: what `finish` gets is the aggregate that the worker holds, not the row.
-- The chunking strategy is the port's; `recursive_chunking` is the service behind it. The UUIDs that a run
-- generates, the clock and the text of an exception's message are arguments; progress reports to the
-- queue are left out.
pub mod Success
pub mod Failure
pub mod Race
pub mod Stale
pub mod Frame
use shiori_api.Shared.{
  ℕ, Bool, true, false, Option, none, some, List, [], ◌∷◌, Str, if◌then◌else◌, length, suc, zero,
}
use shiori_api.Exceptions.{Exception, too_many_chunks, invalid_value}
use shiori_api.Tenancy.{Result, ok, err}
use shiori_api.Chunking.{Piece, Outcome, chunked, too_many, chunk}
use shiori_api.Documents.Aggregate.{
  Document, Event, Kit, Change, chunk_text, start_chunking, complete_chunking, fail_chunking,
}
use shiori_api.Documents.Store.{
  attempt, Chunk, ChunkJob, Store, M, ◌>>=◌, ◌>>◌, pure, lift, run, find_document, save_document,
  save_chunks, publish,
}

-- `chunk` either returns or throws.
outcome : Outcome → Result (List Piece)
outcome (chunked pieces) = ok pieces
outcome (too_many count max) = err (too_many_chunks count max)

unfoldable pub recursive_chunking : ℕ → Str → Result (List Piece)
unfolding outcome chunk
recursive_chunking max content = outcome (chunk max content)

-- the environment of a run
pub record Worker : Type 0 where
  pub kit : Kit
  -- IChunkingStrategyPort
  pub strategy : Str → Result (List Piece)
  pub message : Exception → Str
  -- the identifiers that the run generates
  pub uuid : ℕ → ℕ
  pub now : ℕ

module _ (w : Worker) where
  -- ChunkBuilder, with every field set
  unfoldable pub build_chunk : Document → ℕ → Piece → Result Chunk
  build_chunk d n piece =
      if w.kit.accepts chunk_text piece.text
      then ok (record {
        id = w.uuid n;
        document_id = d.id;
        knowledge_base_id = d.knowledge_base_id;
        position = piece.position;
        text = piece.text;
        created_at = w.now;
        updated_at = w.now;
      })
      else err invalid_value

  unfoldable pub build_chunks : Document → ℕ → List Piece → M (List Chunk)
  unfolding build_chunk
  build_chunks d n [] = pure []
  build_chunks d n (piece ∷ pieces) = do
    c ← lift (build_chunk d n piece)
    cs ← build_chunks d (suc n) pieces
    pure (c ∷ cs)

  start : Option Document → M (Option Document)
  unfolding start_chunking save_document publish
  start none = pure none
  start (some found) = do
    (document, events) ← lift (start_chunking w.kit w.now found)
    _ ← save_document w.kit document
    publish events
    pure (some document)

  -- A document that is gone is skipped.
  unfoldable pub begin : ℕ → M (Option Document)
  unfolding find_document start
  begin id = do found ← find_document w.kit id; start found

  -- The catch block.
  unfoldable pub give_up : Document → Exception → M (Unit {0})
  unfolding fail_chunking save_document publish
  give_up document e = do
    (failed, events) ← lift (fail_chunking w.kit w.now (w.message e) document)
    _ ← save_document w.kit failed
    publish events
    lift (err e)

  unfoldable pub chunk_and_save : Document → M ℕ
  unfolding build_chunks save_chunks
  chunk_and_save document = do
    pieces ← lift (w.strategy document.content)
    aggregates ← build_chunks document 0 pieces
    save_chunks aggregates
    pure (length aggregates)

  unfoldable pub save_and_publish : Change → M (Unit {0})
  unfolding save_document publish
  save_and_publish (document, events) = do _ ← save_document w.kit document; publish events

  -- The try block; the catch block sees the aggregate as the try block left it.
  unfoldable pub finish : Document → M (Unit {0})
  unfolding give_up chunk_and_save complete_chunking save_and_publish
  finish document = attempt (chunk_and_save document) (give_up document) (λ count.
      attempt (lift (complete_chunking w.kit w.now count document)) (give_up document)
        (λ change. attempt (save_and_publish change) (give_up (change.0)) (λ _. pure tt)))

  finish_or_skip : Option Document → M (Unit {0})
  unfolding finish
  finish_or_skip none = pure tt
  finish_or_skip (some document) = finish document

  unfoldable pub process : ChunkJob → M (Unit {0})
  unfolding begin finish_or_skip
  process job =
      run job.knowledge_base_id (do started ← begin job.document_id; finish_or_skip started)
