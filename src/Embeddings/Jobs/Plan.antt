-- ===== src/Embeddings/Jobs/Plan.antt =====
-- What EmbedDocumentChunksService writes for a document, and for the documents of a re-embedding: the aggregates, from
-- the chunks, the embedding port and the UUIDs, apart from the tables.
use shiori_api.Shared.{
  ℕ, suc, ◌+◌, ◌≡◌, refl, ap, ◌∙◌, subst, true, ◌&&◌, Option, some, List, [], ◌∷◌, ◌++◌, append-nil,
  Str, str_eq, str_eq_refl, ◌==◌, ==_refl, arith, map, All, All-append, length,
}
use shiori_api.Tenancy.{Result, ok, ◌>>=◌}
use shiori_api.Tenancy.Binding.{bound, bound-cases, ok_injective}
use shiori_api.Documents.Store.{Chunk}
use shiori_api.Documents.Queries.Chunks.{find_chunks}
use shiori_api.Embeddings.World.{Vector, Embedding, World, Worker}
use shiori_api.Embeddings.Storage.{
  EmbeddingAggregate, EmbeddingBuilder, build, stamp, table_for, all_owned, is_of,
}
use shiori_api.Embeddings.Storage.Building.{metadata-build}
use shiori_api.Embeddings.Storage.Index.{AreFresh, IsFormed, saved_world, save_many-saved}
use shiori_api.Embeddings.Jobs.{
  metadata_for, first_vector, other_vectors, build_embeddings, embed_found, embed_document,
  chunk_source,
}

module _ (w : Worker) (kb : ℕ) (model : Str) (dimensions : ℕ) where
  abbrev pub draft : ℕ → ℕ → Chunk → List Vector → EmbeddingBuilder
  draft document_id g c vectors = record {
    metadata = metadata_for w document_id kb model (w.uuid g) c;
    embedding = first_vector vectors;
    dimensions = dimensions;
  }

  -- the aggregates of a document's chunks, under the UUIDs from the g-th on
  unfoldable pub plan_chunks : ℕ → ℕ → List Chunk → List Vector → Result (List EmbeddingAggregate)
  plan_chunks document_id g [] vectors = ok []
  plan_chunks document_id g (c ∷ cs) vectors = do
    a ← build w.kit (draft document_id g c vectors)
    rest ← plan_chunks document_id (suc g) cs (other_vectors vectors)
    ok (a ∷ rest)

  unfoldable pub plan_found : ℕ → ℕ → List Chunk → Result (List EmbeddingAggregate)
  plan_found document_id g [] = ok []
  plan_found document_id g (c ∷ cs) = do
    vectors ← w.vectors_of (map (λ (x : Chunk). x.text) (c ∷ cs)) model
    plan_chunks document_id g (c ∷ cs) vectors

  unfoldable pub plan_document : List Chunk → ℕ → ℕ → Result (List EmbeddingAggregate)
  plan_document chunks document_id g = do
    found ← find_chunks w.kit.accepts_chunk document_id (some kb) chunks
    plan_found document_id g found

  unfoldable pub plan_all : List Chunk → List ℕ → ℕ → Result (List EmbeddingAggregate)
  plan_all chunks [] g = ok []
  plan_all chunks (id ∷ ids) g = do
    es ← plan_document chunks id g
    rest ← plan_all chunks ids (g + length es)
    ok (es ++ rest)

  abbrev pub drawn : ℕ → World → World
  drawn n s = record s { generated = s.generated + n }

  drawn_next :
      (n : ℕ) (s : World) → drawn n (record s { generated = suc s.generated }) ≡ drawn (suc n) s
  drawn_next n s = ap (λ g. record s { generated = g }) (omega arith)

  drawn_none : (s : World) → s ≡ drawn 0 s
  drawn_none s = ap (λ g. record s { generated = g }) (omega arith)

  build_embeddings-plan :
      (document_id : ℕ) (cs : List Chunk) (vectors : List Vector) (ctx : Option ℕ) (s : World)
      (es : List EmbeddingAggregate)
      → plan_chunks document_id s.generated cs vectors ≡ ok es
      → build_embeddings w document_id kb model dimensions cs vectors ctx s
        ≡ (ok es, drawn (length es) s)
  unfolding build_embeddings plan_chunks
  build_embeddings-plan document_id [] vectors ctx s es h =
      ap (λ t. (ok [], t)) (drawn_none s)
      ∙ ap (λ xs. (ok xs, drawn (length xs) s)) (ok_injective [] es h)
  build_embeddings-plan document_id (c ∷ cs) vectors ctx s es h =
      elim (bound-cases (build w.kit (draft document_id s.generated c vectors)) _ es h) [
        | bound a built later ↦
            elim (bound-cases (plan_chunks document_id (suc s.generated) cs (other_vectors vectors))
              _ es later) [
                | bound rest planned same ↦
                    rw
                      (
                        built,
                        build_embeddings-plan document_id cs (other_vectors vectors) ctx
                            (record s { generated = suc s.generated }) rest planned,
                      )
                      (ap (λ t. (ok (a ∷ rest), t)) (drawn_next (length rest) s)
                        ∙ ap (λ xs. (ok xs, drawn (length xs) s)) (ok_injective (a ∷ rest) es same))
              ]
      ]

  -- the world behind the embedding of a document, or of several
  abbrev pub embedded : ℕ → List EmbeddingAggregate → World → World
  embedded n es s = drawn (length es) (saved_world kb n es s)

  -- what saving the aggregates asks for
  pub record IsSavable (es : List EmbeddingAggregate) (s : World) : Type 0 where
    pub owned : all_owned s.documents.documents s.documents.chunks (map (stamp kb) es) ≡ true
    pub formed : IsFormed s
    pub fresh : AreFresh s.embeddings (map (stamp kb) es)

  module _ (n : ℕ) (table : table_for dimensions ≡ ok n) where
    pub embedded_none : (s : World) → s ≡ embedded n [] s
    embedded_none s = rw (append-nil s.embeddings, append-nil s.vectors) (drawn_none s)

    embed_found-plan :
        (document_id : ℕ) (cs : List Chunk) (s : World) (es : List EmbeddingAggregate)
        → plan_found document_id s.generated cs ≡ ok es
        → IsSavable es s
        → embed_found w document_id kb model dimensions cs (some kb) s
          ≡ (ok (length es), embedded n es s)
    unfolding embed_found plan_found
    embed_found-plan document_id [] s es h savable =
        ap (λ t. (ok 0, t)) (embedded_none s)
        ∙ ap (λ xs. (ok (length xs), embedded n xs s)) (ok_injective [] es h)
    embed_found-plan document_id (c ∷ cs) s es h savable =
        elim (bound-cases (w.vectors_of (map (λ (x : Chunk). x.text) (c ∷ cs)) model) _ es h) [
          | bound vectors answered planned ↦
              rw
                (
                  answered,
                  build_embeddings-plan document_id (c ∷ cs) vectors (some kb) s es planned,
                  save_many-saved kb n dimensions es (drawn (length es) s) table savable.owned
                      savable.formed savable.fresh,
                )
                refl
        ]

    pub embed_document-plan :
        (document_id : ℕ) (s : World) (es : List EmbeddingAggregate)
        → plan_document s.documents.chunks document_id s.generated ≡ ok es
        → IsSavable es s
        → embed_document w document_id kb model dimensions (some kb) s
          ≡ (ok (length es), embedded n es s)
    unfolding embed_document plan_document chunk_source
    embed_document-plan document_id s es h savable =
        elim (bound-cases (find_chunks w.kit.accepts_chunk document_id (some kb) s.documents.chunks)
          _ es h) [
            | bound cs found planned ↦
                rw (found, embed_found-plan document_id cs s es planned savable) refl
          ]

  -- every aggregate of a plan is of the knowledge base and the model
  abbrev pub AreOwn : List EmbeddingAggregate → Type 0
  AreOwn es = All (λ (a : EmbeddingAggregate). is_of kb model (stamp kb a) ≡ true) es

  own-built :
      (document_id g : ℕ) (c : Chunk) (vectors : List Vector) (a : EmbeddingAggregate)
      → build w.kit (draft document_id g c vectors) ≡ ok a
      → is_of kb model (stamp kb a) ≡ true
  own-built document_id g c vectors a h =
      ap (λ (e : Embedding). kb == kb && str_eq e.model model)
        (metadata-build w.kit (draft document_id g c vectors) a h)
      ∙ rw (==_refl kb, str_eq_refl model) refl

  plan_chunks-AreOwn :
      (document_id g : ℕ) (cs : List Chunk) (vectors : List Vector) (es : List EmbeddingAggregate)
      → plan_chunks document_id g cs vectors ≡ ok es
      → AreOwn es
  unfolding plan_chunks
  plan_chunks-AreOwn document_id g [] vectors es h = subst AreOwn (ok_injective [] es h) tt
  plan_chunks-AreOwn document_id g (c ∷ cs) vectors es h =
      elim (bound-cases (build w.kit (draft document_id g c vectors)) _ es h) [
        | bound a built later ↦
            elim (bound-cases (plan_chunks document_id (suc g) cs (other_vectors vectors)) _ es
              later) [
                | bound rest planned same ↦ subst AreOwn (ok_injective (a ∷ rest) es same) (
                  own-built document_id g c vectors a built,
                  plan_chunks-AreOwn document_id (suc g) cs (other_vectors vectors) rest planned,
                )
              ]
      ]

  plan_found-AreOwn :
      (document_id g : ℕ) (cs : List Chunk) (es : List EmbeddingAggregate)
      → plan_found document_id g cs ≡ ok es
      → AreOwn es
  unfolding plan_found
  plan_found-AreOwn document_id g [] es h = subst AreOwn (ok_injective [] es h) tt
  plan_found-AreOwn document_id g (c ∷ cs) es h =
      elim (bound-cases (w.vectors_of (map (λ (x : Chunk). x.text) (c ∷ cs)) model) _ es h) [
        | bound vectors answered planned ↦
            plan_chunks-AreOwn document_id g (c ∷ cs) vectors es planned
      ]

  plan_document-AreOwn :
      (chunks : List Chunk) (document_id g : ℕ) (es : List EmbeddingAggregate)
      → plan_document chunks document_id g ≡ ok es
      → AreOwn es
  unfolding plan_document
  plan_document-AreOwn chunks document_id g es h =
      elim (bound-cases (find_chunks w.kit.accepts_chunk document_id (some kb) chunks) _ es h) [
        | bound cs found planned ↦ plan_found-AreOwn document_id g cs es planned
      ]

  pub plan_all-AreOwn :
      (chunks : List Chunk) (ids : List ℕ) (g : ℕ) (es : List EmbeddingAggregate)
      → plan_all chunks ids g ≡ ok es
      → AreOwn es
  unfolding plan_all
  plan_all-AreOwn chunks [] g es h = subst AreOwn (ok_injective [] es h) tt
  plan_all-AreOwn chunks (id ∷ ids) g es h = elim (bound-cases (plan_document chunks id g) _ es h) [
    | bound xs planned later ↦ elim (bound-cases (plan_all chunks ids (g + length xs)) _ es later) [
      | bound ys planned' same ↦ subst AreOwn (ok_injective (xs ++ ys) es same) (
          All-append (λ (a : EmbeddingAggregate). is_of kb model (stamp kb a) ≡ true) xs ys
            (plan_document-AreOwn chunks id g xs planned)
            (plan_all-AreOwn chunks ids (g + length xs) ys planned'))
    ]
  ]
