-- ===== src/Embeddings/Storage.antt =====
-- EmbeddingBuilder and EmbeddingTypeOrmWriteRepository (src/contexts/embeddings/domain/builders,
-- src/contexts/embeddings/infrastructure/persistence/typeorm). Every use of the builder sets all fields that its build
-- reads, so a build is a function of those fields.
pub mod Tables
pub mod Building
pub mod Index
pub mod Refinement
use shiori_api.Shared.{
  ℕ, Bool, true, false, not, ◌&&◌, Option, none, some, List, [], ◌∷◌, Str, codes, ◌==◌, str_eq,
  if◌then◌else◌, filter, find, map,
}
use shiori_api.Exceptions.{
  field_is_required, invalid_value, invalid_vector, no_table_for_dimension, foreign,
}
use shiori_api.Tenancy.{Result, ok, err, table, tenant_find, scoped, upsert}
use shiori_api.Documents.Aggregate.{Document}
use shiori_api.Documents.Store.{Chunk}
use shiori_api.Embeddings.Registry.{EmbeddingModel, vector_table, get_or_throw}
use shiori_api.Embeddings.World.{
  Vector, Embedding, VectorRow, World, M, Kit, Action, ◌>>=◌, ◌>>◌, pure, lift, throw, ambient,
  reading, embedding_columns,
}

-- the fields of the builder, those of the metadata row in one record
pub record EmbeddingBuilder : Type 0 where
  pub metadata : Embedding
  pub embedding : Option Vector
  pub dimensions : ℕ

pub record EmbeddingAggregate : Type 0 where
  pub metadata : Embedding
  pub embedding : Vector
  pub dimensions : ℕ

abbrev pub is_blank : Str → Bool
is_blank [] = true
is_blank (c ∷ s) = false

-- `validate`, which gives the vector that is there
unfoldable pub validate : EmbeddingBuilder → Result Vector
validate b = elim b.embedding [
  | none ↦ err (field_is_required (codes "embedding"))
  | some v ↦ if is_blank (b.metadata.model) then err (field_is_required (codes "model")) else ok v
]

module _ (kit : Kit) where
  -- the value objects, in the order in which `build` makes them
  unfoldable pub with_values : EmbeddingBuilder → Vector → Result EmbeddingAggregate
  with_values b v =
      if b.dimensions == 0
      then err (field_is_required (codes "dimensions"))
      else if not
          (kit.accepts_text b.metadata.chunk_text && kit.accepts_position b.metadata.chunk_position)
      then err invalid_value
      else if not (kit.accepts_vector v b.dimensions)
      then err invalid_vector
      else if not (kit.accepts_model b.metadata.model)
      then err invalid_value
      else ok (record { metadata = b.metadata; embedding = v; dimensions = b.dimensions })

  build_validated : EmbeddingBuilder → Result Vector → Result EmbeddingAggregate
  unfolding with_values
  build_validated b (err e) = err e
  build_validated b (ok v) = with_values b v

  unfoldable pub build : EmbeddingBuilder → Result EmbeddingAggregate
  unfolding build_validated validate
  build b = build_validated b (validate b)

-- EmbeddingTypeOrmMapper
abbrev pub to_persistence : EmbeddingAggregate → Embedding
to_persistence a = a.metadata

abbrev pub to_vector_persistence : ℕ → EmbeddingAggregate → VectorRow
to_vector_persistence table_dimensions a = record {
  dimensions = table_dimensions;
  embedding_id = a.metadata.id;
  embedding = a.embedding;
}

-- the vector table of a number of dimensions
or_no_table : ℕ → Option ℕ → Result ℕ
or_no_table n none = err (no_table_for_dimension n)
or_no_table n (some t) = ok t

unfoldable pub table_for : ℕ → Result ℕ
unfolding or_no_table vector_table
table_for n = or_no_table n (vector_table n)

-- The row of a vector table with the identifier is replaced, or added.
abbrev pub is_vector_of : ℕ → ℕ → VectorRow → Bool
is_vector_of n id v = v.dimensions == n && v.embedding_id == id

unfoldable pub upsert_vector : VectorRow → List VectorRow → List VectorRow
upsert_vector v [] = v ∷ []
upsert_vector v (x ∷ xs) =
    if is_vector_of v.dimensions v.embedding_id x then v ∷ xs else x ∷ upsert_vector v xs

unfoldable pub save_rows : List Embedding → List Embedding → List Embedding
save_rows [] rows = rows
save_rows (e ∷ es) rows = save_rows es (upsert (λ x. x.id) e rows)

unfoldable pub save_vectors : List VectorRow → List VectorRow → List VectorRow
unfolding upsert_vector
save_vectors [] rows = rows
save_vectors (v ∷ vs) rows = save_vectors vs (upsert_vector v rows)

abbrev pub stamp : ℕ → EmbeddingAggregate → Embedding
stamp kb a = record (to_persistence a) { knowledge_base_id = kb }

abbrev pub is_some : {A : Type 0} → Option A → Bool
is_some none = false
is_some (some a) = true

-- The foreign keys of `embeddings`: the document and the chunk are there.
unfoldable pub all_owned : List Document → List Chunk → List Embedding → Bool
all_owned ds cs [] = true
all_owned ds cs (e ∷ es) =
    is_some (find (λ (d : Document). d.id == e.document_id) ds)
    && (is_some (find (λ (c : Chunk). c.id == e.chunk_id) cs) && all_owned ds cs es)

-- the transaction that writes both tables, or neither
unfoldable pub insert : ℕ → List Embedding → List VectorRow → M (Unit {0})
insert n rows vectors ctx s =
    if all_owned s.documents.documents s.documents.chunks rows
    then (
      ok tt,
      record s {
        embeddings = save_rows rows s.embeddings;
        vectors = save_vectors vectors s.vectors;
      },
    )
    else (err (foreign (codes "FK_embeddings")), s)

unfoldable pub save_many : List EmbeddingAggregate → ℕ → M (Unit {0})
save_many [] dimensions = pure tt
save_many (a ∷ rest) dimensions = do
  n ← lift (table_for dimensions)
  kb ← ambient
  insert n (map (stamp kb) (a ∷ rest)) (map (to_vector_persistence n) (a ∷ rest))

-- EmbeddingTypeOrmWriteRepository.save
unfoldable pub save_embedding : EmbeddingAggregate → M EmbeddingAggregate
save_embedding a = do save_many (a ∷ []) a.dimensions; pure a

-- A deletion from `embeddings` takes the vectors of the rows that go.
abbrev pub is_row_of : ℕ → Embedding → Bool
is_row_of id e = e.id == id

unfoldable pub delete_rows : (Embedding → Bool) → World → World
delete_rows p s = record s {
  embeddings = filter (λ e. not (p e)) s.embeddings;
  vectors =
      filter (λ v. not (is_some (find (is_row_of v.embedding_id) (filter p s.embeddings))))
        s.vectors;
}

unfoldable pub delete_scoped : (Embedding → Bool) → M (Unit {0})
unfolding delete_rows
delete_scoped p = do kb ← ambient; (λ ctx s. (ok tt, delete_rows (scoped embedding_columns kb p) s))

unfoldable pub delete_by_document_id : ℕ → M (Unit {0})
delete_by_document_id document_id = delete_scoped (λ e. e.document_id == document_id)

unfoldable pub delete_embedding : ℕ → M (Unit {0})
delete_embedding id = delete_scoped (λ e. e.id == id)

abbrev pub is_of : ℕ → Str → Embedding → Bool
is_of kb model e = e.knowledge_base_id == kb && str_eq e.model model

unfoldable pub delete_by_knowledge_base_id : ℕ → M (Unit {0})
unfolding delete_rows
delete_by_knowledge_base_id kb ctx s = (ok tt, delete_rows (λ e. e.knowledge_base_id == kb) s)

unfoldable pub delete_by_knowledge_base_id_and_model : ℕ → Str → M (Unit {0})
unfolding delete_rows
delete_by_knowledge_base_id_and_model kb model ctx s = (ok tt, delete_rows (is_of kb model) s)

-- fetchVectorRow, and `vectorRow?.embedding ?? []`
unfoldable pub fetch_vector : ℕ → ℕ → List VectorRow → Vector
fetch_vector n id vectors = elim (find (is_vector_of n id) vectors) [
  | none ↦ []
  | some v ↦ v.embedding
]

module _ (kit : Kit) where
  -- the row with its vector, from the table of its model
  unfoldable pub to_domain : Embedding → M EmbeddingAggregate
  to_domain entity = do
    model ← lift (get_or_throw entity.model)
    n ← lift (table_for model.dimensions)
    v ← reading (λ ctx s. ok (fetch_vector n entity.id s.vectors))
    lift (
        build kit (record { metadata = entity; embedding = some v; dimensions = model.dimensions }))

  to_domain_first : List Embedding → M (Option EmbeddingAggregate)
  unfolding to_domain
  to_domain_first [] = pure none
  to_domain_first (entity ∷ _) = do a ← to_domain entity; pure (some a)

  unfoldable pub find_embedding : ℕ → M (Option EmbeddingAggregate)
  unfolding to_domain_first
  find_embedding id = do
    rows ←
        reading (λ ctx s.
          tenant_find embedding_columns (table (λ e. e.id)) ctx (is_row_of id) s.embeddings)
    to_domain_first rows

  to_domain_all : List Embedding → M (List EmbeddingAggregate)
  unfolding to_domain
  to_domain_all [] = pure []
  to_domain_all (e ∷ es) = do a ← to_domain e; rest ← to_domain_all es; pure (a ∷ rest)

  -- findByCriteria, with the page that the query builder gives
  unfoldable pub find_page : (List Embedding → List Embedding × ℕ) → M (List EmbeddingAggregate × ℕ)
  unfolding to_domain_all
  find_page page = do
    kb ← ambient
    (entities, total) ←
        reading (λ ctx s. ok (page (filter (λ e. e.knowledge_base_id == kb) s.embeddings)))
    items ← to_domain_all entities
    pure (items, total)
