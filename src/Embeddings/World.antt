-- ===== src/Embeddings/World.antt =====
-- What the jobs and queries of src/contexts/embeddings run on: the stores of the documents and of the knowledge
-- bases, the table `embeddings`, the vector tables, and the queue `embeddings`.
--
-- A component of a vector is a number, the bit pattern of a double. The UUIDs that a process generates are
-- those of `Worker.uuid`, from the first that was not drawn yet.
use shiori_api.Shared.{ℕ, suc, Bool, Option, List, Str}
use shiori_api.Exceptions.{Exception}
use shiori_api.Tenancy.{Result, ok, Columns}
pub use shiori_api.Tenancy.Action.{
  Action, continue, ◌>>=◌, ◌>>◌, pure, lift, throw, run, ambient, reading, attempt, within,
}
use shiori_api.Documents.Store as Documents
use shiori_api.KnowledgeBases.Store as Bases
use shiori_api.KnowledgeBases.Aggregate.{KnowledgeBase, Values}

abbrev pub Vector : Type 0
Vector = List ℕ

-- EmbeddingTypeOrmEntity: a row of `embeddings`
pub record Embedding : Type 0 where
  pub id : ℕ
  pub knowledge_base_id : ℕ
  pub document_id : ℕ
  pub chunk_id : ℕ
  pub chunk_text : Str
  pub chunk_position : ℕ
  pub model : Str
  pub created_at : ℕ
  pub updated_at : ℕ

-- A row of `embedding_vectors_{dimensions}`
pub record VectorRow : Type 0 where
  pub dimensions : ℕ
  pub embedding_id : ℕ
  pub embedding : Vector

-- a row of `embeddings` with its vector
pub record Joined : Type 0 where
  pub row : Embedding
  pub vector : Vector

-- A job of the queue, by its name
pub data Job : Type 0 where
  embed_job : ℕ → ℕ → Job
  reembed_job : ℕ → Str → Str → Job

pub record World : Type 0 where
  pub documents : Documents.Store
  pub bases : Bases.Store
  pub embeddings : List Embedding
  pub vectors : List VectorRow
  pub jobs : List Job
  pub generated : ℕ

abbrev pub M : Type 0 → Type 0
M A = Action World A

-- What the value objects of nestjs-kit take.
pub record Kit : Type 0 where
  pub accepts_chunk : Str → Bool
  pub accepts_text : Str → Bool
  pub accepts_position : ℕ → Bool
  pub accepts_model : Str → Bool
  -- VectorValueObject, for a number of dimensions
  pub accepts_vector : Vector → ℕ → Bool

-- The environment of a job or a query.
pub record Worker : Type 0 where
  pub kit : Kit
  -- IEmbeddingPort: embedBatch and embed
  pub vectors_of : List Str → Str → Result (List Vector)
  pub vector_of : Str → Str → Result (Option Vector)
  -- pgvector's `<=>`, by the bit pattern of the distance, which is not negative, and `1 - distance`
  pub distance : Vector → Vector → ℕ
  pub one_minus : ℕ → ℕ
  -- PostgreSQL's scan of rows in the order of `<=>` from a vector, which over an HNSW index may leave some out
  pub scan : Vector → List Joined → List Joined
  pub message : Exception → Str
  pub accepts_reason : Str → Bool
  pub uuid : ℕ → ℕ
  pub now : ℕ
  -- the values of a knowledge base
  pub valid : KnowledgeBase → Bool
  pub values : Values

abbrev pub embedding_columns : Columns Embedding
embedding_columns = record {
  id = λ e. e.id;
  knowledge_base_id = λ e. e.knowledge_base_id;
  with_knowledge_base_id = λ kb e. record e { knowledge_base_id = kb };
}

-- `UuidValueObject.generate()`
abbrev pub draw : Worker → M ℕ
draw w ctx s = (ok (w.uuid s.generated), record s { generated = suc s.generated })

-- An action of the knowledge bases, which are not scoped.
abbrev pub in_bases : {A : Type 0} → (Bases.M A) → M A
in_bases m ctx s = let (r, b) = m s.bases in (r, record s { bases = b })
