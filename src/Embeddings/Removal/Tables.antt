-- ===== src/Embeddings/Removal/Tables.antt =====
-- The rows that go with a knowledge base over the foreign keys are those that bear its identifier, where the tables agree
-- with the owners of identifiers.
use shiori_api.Shared.{
  ℕ, ◌≡◌, refl, sym, ap, ◌∙◌, Bool, true, false, not, List, [], ◌∷◌, ◌==◌, arith, filter, find, All,
  All-map, All-map2,
}
use shiori_api.Documents.Aggregate.{Document}
use shiori_api.Documents.Store.{Chunk}
use shiori_api.Documents.Store.Rows.{is_there, IsThere}
use shiori_api.Documents.Store.Ownership.{
  OwnsDocument, OwnsChunk, IsConsistent, other_documents, other_chunks,
}
use shiori_api.Embeddings.World.{Embedding, VectorRow, World}
use shiori_api.Embeddings.Storage.{is_some, is_row_of, delete_rows}
use shiori_api.Embeddings.Removal.{documents_of_base, chunks_of_documents, names_gone, cascade}

abbrev pub of_base : ℕ → Embedding → Bool
of_base kb e = e.knowledge_base_id == kb

-- the vectors of rows that another knowledge base has, or none
abbrev pub is_other_vector : ℕ → List Embedding → VectorRow → Bool
is_other_vector kb rows v =
    not (is_some (find (is_row_of v.embedding_id) (filter (of_base kb) rows)))

filter-same :
    {A : Type 0} (p q : A → Bool) (xs : List A)
    → All (λ x. p x ≡ q x) xs
    → filter p xs ≡ filter q xs
filter-same p q [] h = refl
filter-same p q (x ∷ xs) (e, h) = ground (arith, e, filter-same p q xs h)

module _ (owner : ℕ → ℕ) where
  -- a passage, the document and the chunk that it names, and its foreign key
  abbrev pub OwnsEmbedding : List Document → Embedding → Type 0
  OwnsEmbedding ds e =
      (owner e.document_id ≡ e.knowledge_base_id)
      × (owner e.chunk_id ≡ e.knowledge_base_id)
      × (is_there e.document_id ds ≡ true)

  -- The tables of the world agree with the owners of identifiers.
  pub record IsOwned (s : World) : Type 0 where
    pub documents : IsConsistent owner s.documents
    pub embeddings : All (OwnsEmbedding s.documents.documents) s.embeddings

  module _ (kb : ℕ) where
    not_gone :
        {A : Type 0} (id base : A → ℕ) (i : ℕ) (xs : List A)
        → All (λ x. owner (id x) ≡ base x) xs
        → (owner i == kb) ≡ false
        → is_some (find (λ x. id x == i) (filter (λ x. base x == kb) xs)) ≡ false
    not_gone id base i [] h ne = refl
    not_gone id base i (x ∷ xs) (hx, h) ne =
        let same : id x ≡ i → owner i ≡ base x = λ e. ap owner (sym e) ∙ hx in
        ground (arith, same, not_gone id base i xs h ne)

    document_gone :
        (i : ℕ) (ds : List Document)
        → All (OwnsDocument owner) ds
        → is_there i ds ≡ true
        → is_some (find (λ (d : Document). d.id == i) (filter (λ d. d.knowledge_base_id == kb) ds))
          ≡ (owner i == kb)
    document_gone i [] h there = ground arith
    document_gone i (d ∷ ds) (hd, h) there =
        let same : d.id ≡ i → owner i ≡ d.knowledge_base_id = λ e. ap owner (sym e) ∙ hd in
        ground (
          arith,
          same,
          document_gone i ds h,
          not_gone (λ (d : Document). d.id) (λ d. d.knowledge_base_id) i ds h,
        )

    -- what the foreign keys leave, by the knowledge base alone
    abbrev pub removed : World → World
    removed s = delete_rows (of_base kb) (record s {
      documents = record s.documents {
        documents = other_documents kb s.documents.documents;
        chunks = other_chunks kb s.documents.chunks;
      };
    })

    chunk_gone :
        (ds : List Document) (cs : List Chunk)
        → All (OwnsDocument owner) ds
        → All (OwnsChunk owner) cs
        → All (IsThere ds) cs
        → All
            (λ (c : Chunk).
              is_some (find (λ (d : Document). d.id == c.document_id) (documents_of_base kb ds))
              ≡ (c.knowledge_base_id == kb))
            cs
    unfolding documents_of_base
    chunk_gone ds cs h own there =
        All-map2 (λ c o t. document_gone c.document_id ds h t ∙ ap (λ b. b == kb) (o.1)) cs own
          there

    chunks_gone :
        (ds : List Document) (cs : List Chunk)
        → All (OwnsDocument owner) ds
        → All (OwnsChunk owner) cs
        → All (IsThere ds) cs
        → chunks_of_documents (documents_of_base kb ds) cs
          ≡ filter (λ c. c.knowledge_base_id == kb) cs
    unfolding chunks_of_documents
    chunks_gone ds cs h own there = filter-same _ _ cs (chunk_gone ds cs h own there)

    embedding_gone :
        (ds : List Document) (cs : List Chunk) (e : Embedding)
        → All (OwnsDocument owner) ds
        → All (OwnsChunk owner) cs
        → OwnsEmbedding ds e
        → names_gone (documents_of_base kb ds) (filter (λ c. c.knowledge_base_id == kb) cs) e
          ≡ of_base kb e
    unfolding documents_of_base names_gone
    embedding_gone ds cs e h own (o, oc, there) = ground (
      arith,
      o,
      oc,
      document_gone e.document_id ds h there,
      not_gone (λ (c : Chunk). c.id) (λ c. c.knowledge_base_id) e.chunk_id cs
          (All-map (λ c x. x.0) cs own),
    )

    -- The cascade takes the rows of the knowledge base, and those only.
    pub cascade-removed : (s : World) → IsOwned s → cascade kb s ≡ removed s
    unfolding cascade delete_rows
    cascade-removed s h =
        let ds = s.documents.documents in
        let cs = s.documents.chunks in
        let own = h.documents in
        let chunk_same = chunk_gone ds cs own.documents own.chunks own.there in
        let embedding_same =
          All-map
            (λ e o.
              ap (λ gone. names_gone (documents_of_base kb ds) gone e)
                (chunks_gone ds cs own.documents own.chunks own.there)
              ∙ embedding_gone ds cs e own.documents own.chunks o)
            s.embeddings h.embeddings in
        let chunks_left = filter-same _ _ cs (All-map (λ c e. ap not e) cs chunk_same) in
        let rows_left =
          filter-same _ _ s.embeddings (All-map (λ c e. ap not e) s.embeddings embedding_same) in
        let rows_gone = filter-same _ _ s.embeddings embedding_same in
        rw (chunks_left, rows_left, rows_gone) refl
