-- ===== src/Documents/Processor/Frame.antt =====
-- The two phases of the job respect the owners of identifiers (Documents.Store.Ownership).
use shiori_api.Shared.{
  ℕ, ◌≡◌, Option, none, some, List, [], ◌∷◌, All, length, suc, Bool-cases, inl, inr,
}
use shiori_api.Exceptions.{Exception}
use shiori_api.Tenancy.{Result, err, IfOk}
use shiori_api.Chunking.{Piece}
use shiori_api.Documents.Aggregate.{
  Document, Change, chunk_text, start_chunking, complete_chunking, fail_chunking,
}
use shiori_api.Documents.Aggregate.Lifecycle.{starts, completes, fails, apply, apply-IsMoved}
use shiori_api.Documents.Store.{
  attempt, Chunk, M, ◌>>=◌, ◌>>◌, pure, lift, find_document, save_document, save_chunks, publish,
}
use shiori_api.Documents.Store.Ownership.{
  Respects, Any, Any-result, Respects-bind, Respects-lift, Respects-pure, Respects-attempt,
}
use shiori_api.Documents.Store.Ownership.Tables.{MineChunk}
use shiori_api.Documents.Store.Ownership.Operations.{
  Mine, FoundMine, Respects-find_document, Respects-save_document, Respects-save_chunks,
  Respects-publish,
}
use shiori_api.Documents.Commands.Frame.{
  MineChange, moved-MineChange, Respects-then, Respects-save_publish,
}
use shiori_api.Documents.Processor.{
  Worker, build_chunk, build_chunks, start, begin, give_up, chunk_and_save, save_and_publish,
  finish,
}

module _ (owner : ℕ → ℕ) (kb : ℕ) (w : Worker) where
  Respects-start :
      (found : Option Document)
      → FoundMine owner kb found
      → Respects owner kb (FoundMine owner kb) (start w found)
  unfolding start apply
  Respects-start none h = Respects-pure owner kb (FoundMine owner kb) none tt
  Respects-start (some d) mine =
      let rest : Change → M (Option Document) =
        λ c. save_document w.kit c.0 >>= λ _. (publish c.1 >> pure (some c.0)) in
      Respects-bind owner kb (MineChange owner kb) (FoundMine owner kb)
        (lift (start_chunking w.kit w.now d)) rest
        (Respects-lift owner kb (MineChange owner kb) (start_chunking w.kit w.now d) (
          moved-MineChange owner kb d (start_chunking w.kit w.now d) mine
            (apply-IsMoved w.kit w.now starts d)))
        (λ c m.
          Respects-save_publish owner kb (FoundMine owner kb) w.kit c (pure (some c.0)) m
            (Respects-pure owner kb (FoundMine owner kb) (some c.0) m))

  pub Respects-begin : (id : ℕ) → Respects owner kb (FoundMine owner kb) (begin w id)
  unfolding begin
  Respects-begin id =
      Respects-bind owner kb (FoundMine owner kb) (FoundMine owner kb) (find_document w.kit id)
        (start w) (Respects-find_document owner kb w.kit id) Respects-start

  Respects-give_up :
      (d : Document) → Mine owner kb d → (e : Exception) → Respects owner kb Any (give_up w d e)
  unfolding give_up apply
  Respects-give_up d mine e =
      let rest : Change → M (Unit {0}) =
        λ c. save_document w.kit c.0 >>= λ _. (publish c.1 >> lift (err e)) in
      let failing : Result Change = fail_chunking w.kit w.now (w.message e) d in
      Respects-bind owner kb (MineChange owner kb) Any (lift failing) rest
        (Respects-lift owner kb (MineChange owner kb) failing (
          moved-MineChange owner kb d failing mine
            (apply-IsMoved w.kit w.now (fails (w.message e)) d)))
        (λ c m.
          Respects-save_publish owner kb Any w.kit c (lift (err e)) m
            (Respects-lift owner kb {A = Unit {0}} Any (err e) tt))

  -- The run generates identifiers of the knowledge base.
  module _ (fresh : (n : ℕ) → owner (w.uuid n) ≡ kb) where
    build_chunk-Mine :
        (d : Document) (n : ℕ) (piece : Piece)
        → Mine owner kb d
        → IfOk (MineChunk owner kb) (build_chunk w d n piece)
    unfolding build_chunk
    build_chunk-Mine d n piece mine = elim (Bool-cases (w.kit.accepts chunk_text piece.text)) [
      | inl e ↦ rw e (fresh n, mine.0)
      | inr e ↦ rw e tt
    ]

    Respects-build_chunks :
        (d : Document) (n : ℕ) (pieces : List Piece)
        → Mine owner kb d
        → Respects owner kb (All (MineChunk owner kb)) (build_chunks w d n pieces)
    unfolding build_chunks
    Respects-build_chunks d n [] mine = Respects-pure owner kb (All (MineChunk owner kb)) [] tt
    Respects-build_chunks d n (piece ∷ pieces) mine =
        let Ours : List Chunk → Type 0 = All (MineChunk owner kb) in
        Respects-bind owner kb (MineChunk owner kb) Ours (lift (build_chunk w d n piece))
          (λ c. build_chunks w d (suc n) pieces >>= λ cs. pure (c ∷ cs))
          (Respects-lift owner kb (MineChunk owner kb) (build_chunk w d n piece)
            (build_chunk-Mine d n piece mine))
          (λ c hc.
            Respects-bind owner kb Ours Ours (build_chunks w d (suc n) pieces) (λ cs. pure (c ∷ cs))
              (Respects-build_chunks d (suc n) pieces mine)
              (λ cs hcs. Respects-pure owner kb Ours (c ∷ cs) (hc, hcs)))

    Respects-chunk_and_save :
        (d : Document) → Mine owner kb d → Respects owner kb Any (chunk_and_save w d)
    unfolding chunk_and_save
    Respects-chunk_and_save d mine =
        let store : List Chunk → M ℕ = λ cs. save_chunks cs >> pure (length cs) in
        Respects-bind owner kb Any Any (lift (w.strategy d.content))
          (λ pieces. build_chunks w d 0 pieces >>= store)
          (Respects-lift owner kb Any (w.strategy d.content) (Any-result (w.strategy d.content)))
          (λ pieces _.
            Respects-bind owner kb (All (MineChunk owner kb)) Any (build_chunks w d 0 pieces) store
              (Respects-build_chunks d 0 pieces mine)
              (λ cs h.
                Respects-then owner kb Any (save_chunks cs) (pure (length cs))
                  (Respects-save_chunks owner kb cs h) (Respects-pure owner kb Any (length cs) tt)))

    Respects-save_and_publish :
        (c : Change) → MineChange owner kb c → Respects owner kb Any (save_and_publish w c)
    unfolding save_and_publish
    Respects-save_and_publish c mine =
        Respects-bind owner kb (Mine owner kb) Any (save_document w.kit c.0) (λ _. publish c.1)
          (Respects-save_document owner kb w.kit c.0 mine.0) (λ _ _. Respects-publish owner kb c.1)

    pub Respects-finish : (d : Document) → Mine owner kb d → Respects owner kb Any (finish w d)
    unfolding finish apply
    Respects-finish d mine =
        let saved : Change → M (Unit {0}) =
          λ c. attempt (save_and_publish w c) (give_up w c.0) (λ _. pure tt) in
        let completed : ℕ → M (Unit {0}) =
          λ count. attempt (lift (complete_chunking w.kit w.now count d)) (give_up w d) saved in
        Respects-attempt owner kb Any Any (chunk_and_save w d) (give_up w d) completed
          (Respects-chunk_and_save d mine) (Respects-give_up d mine)
          (λ count _.
            Respects-attempt owner kb (MineChange owner kb) Any
              (lift (complete_chunking w.kit w.now count d)) (give_up w d) saved
              (Respects-lift owner kb (MineChange owner kb) (complete_chunking w.kit w.now count d)
                (moved-MineChange owner kb d (complete_chunking w.kit w.now count d) mine
                  (apply-IsMoved w.kit w.now (completes count) d)))
              (Respects-give_up d mine)
              (λ c m.
                Respects-attempt owner kb Any Any (save_and_publish w c) (give_up w c.0)
                  (λ _. pure tt) (Respects-save_and_publish c m) (Respects-give_up c.0 m)
                  (λ _ _. Respects-pure owner kb Any tt tt)))
