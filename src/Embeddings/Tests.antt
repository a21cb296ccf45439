-- ===== src/Embeddings/Tests.antt =====
-- A knowledge base with a document of two chunks, its vectors under one model, and the theorems of the jobs, the
-- storage and the search at it.
use shiori_api.Shared.{
  take, sort_by, ℕ, ◌≡◌, refl, true, false, none, some, List, [], ◌∷◌, Str, codes, str_eq,
  str_eq_iff, map, ◌+◌, arith,
}
use shiori_api.Exceptions.{foreign, invalid_value}
use shiori_api.Tenancy.{ok, err}
use shiori_api.Documents.Aggregate.{Document, chunked}
use shiori_api.Documents.Store.{Chunk, new_builder}
use shiori_api.KnowledgeBases.Aggregate.{KnowledgeBase, reembedding}
use shiori_api.KnowledgeBases.Commands.Keys.{IsBuildable}
use shiori_api.Embeddings.Registry.{EmbeddingModel, get_or_throw}
use shiori_api.Embeddings.World.{Kit, Worker, World, Embedding}
use shiori_api.Embeddings.Storage.{EmbeddingAggregate, build, all_owned, delete_rows}
use shiori_api.Embeddings.World.{reembed_job}
use shiori_api.Embeddings.Jobs.Kept.{AreApart}
use shiori_api.Embeddings.Jobs.Failure.{
  loop, IsGivenUp, KeepsOthers, process-IsGivenUp, process_reembed_stuck,
}
use shiori_api.Embeddings.Jobs.{
  embed_all, embed_document, embed_found, chunk_source, process, metadata_for,
}
use shiori_api.Documents.Queries.{find_ids}
use shiori_api.Documents.Queries.Chunks.{find_chunks}
use shiori_api.Embeddings.Jobs.Plan.{plan_all, plan_document, plan_found, plan_chunks}
use shiori_api.Embeddings.Jobs.Success.{IsReembedded, process-IsReembedded}

abbrev kit : Kit
kit = record {
  accepts_chunk = λ t. true;
  accepts_text = λ t. true;
  accepts_position = λ n. true;
  accepts_model = λ t. true;
  accepts_vector = λ v n. true;
}

abbrev pub worker : Worker
worker = record {
  kit = kit;
  vectors_of = λ texts model. ok (map (λ t. 7 ∷ []) texts);
  vector_of = λ text model. ok (some (7 ∷ []));
  distance = λ v q. 5;
  one_minus = λ d. d;
  -- a scan of an index that visits forty rows
  scan = λ query js. take 40 (sort_by (λ j. 5) js);
  message = λ e. codes "failed";
  accepts_reason = λ r. true;
  uuid = λ n. n;
  now = 9;
  valid = λ k. true;
  values = record { equals = str_eq; equals_iff = str_eq_iff; touched = λ old now. now };
}

abbrev pub document : Document
document = record {
  id = 3;
  knowledge_base_id = 1;
  title = codes "Guide";
  content = codes "One. Two.";
  status = chunked;
  failure_reason = none;
  chunk_count = 2;
  created_at = 2;
  updated_at = 2;
}

abbrev pub chunk_at : ℕ → ℕ → Chunk
chunk_at id position = record {
  id = id;
  document_id = 3;
  knowledge_base_id = 1;
  position = position;
  text = codes "One.";
  created_at = 2;
  updated_at = 2;
}

abbrev pub base : KnowledgeBase
base = record {
  id = 1;
  name = codes "Docs";
  description = none;
  api_key_hash = codes "h";
  embedding_model = codes "nomic-embed-text";
  embedding_status = reembedding;
  created_at = 1;
  updated_at = 1;
}

-- a row of the previous model, and one of the new model that an earlier attempt left
abbrev pub row_of : ℕ → Str → Embedding
row_of id model = record {
  id = id;
  knowledge_base_id = 1;
  document_id = 3;
  chunk_id = 10;
  chunk_text = codes "One.";
  chunk_position = 0;
  model = model;
  created_at = 1;
  updated_at = 1;
}

abbrev pub small : Str
small = codes "text-embedding-3-small"

abbrev pub nomic : Str
nomic = codes "nomic-embed-text"

abbrev pub world : World
world = record {
  documents = record {
    documents = document ∷ [];
    chunks = chunk_at 11 1 ∷ chunk_at 10 0 ∷ [];
    jobs = [];
    events = [];
    builder = new_builder;
  };
  bases = record { bases = base ∷ []; events = []; builder = base };
  embeddings = row_of 50 small ∷ row_of 51 nomic ∷ [];
  vectors =
      record { dimensions = 1536; embedding_id = 50; embedding = 1 ∷ [] }
      ∷ record { dimensions = 768; embedding_id = 51; embedding = 2 ∷ [] }
      ∷ [];
  jobs = [];
  generated = 100;
}

abbrev pub nomic_model : EmbeddingModel
nomic_model = record { id = nomic; provider = codes "ollama"; dimensions = 768 }

abbrev aggregate_at : ℕ → Chunk → EmbeddingAggregate
aggregate_at id c = record {
  metadata = metadata_for worker 3 1 nomic id c;
  embedding = 7 ∷ [];
  dimensions = 768;
}

abbrev pub planned : List EmbeddingAggregate
planned = aggregate_at 100 (chunk_at 10 0) ∷ aggregate_at 101 (chunk_at 11 1) ∷ []

pub known : get_or_throw nomic ≡ ok nomic_model
unfolding get_or_throw
known = refl

pub base_buildable : IsBuildable (λ k. true) base
base_buildable = record {
  has_name = refl;
  has_key_hash = refl;
  has_model = refl;
  valid_values = refl;
}

process-IsReembedded_example :
    IsReembedded worker base small nomic nomic_model known world planned
      (process worker (reembed_job 1 small nomic) none world)
unfolding plan_all plan_document plan_found plan_chunks build all_owned delete_rows find_chunks
    find_ids
process-IsReembedded_example =
    process-IsReembedded worker base small nomic nomic_model known world planned
      (record { sole = (refl, (refl, tt)); owned = (refl, (refl, tt)) }) refl
      (record {
        owned = refl;
        formed = record { sole = (refl, tt); owned = (refl, tt) };
        fresh = ((refl, tt), ((refl, (refl, tt)), tt));
      })
      none refl base_buildable refl

-- the embedding port is down
abbrev down : Worker
down = record worker {
  vectors_of = λ texts model. err (foreign (codes "down"));
  uuid = λ n. n + 60;
}

apart : AreApart down 1 nomic world
apart = ((λ h g. ground arith), ((λ h g. ground arith), tt))

loop_down :
    (loop down base small nomic nomic_model world known (foreign (codes "down"))).0
    ≡ err (foreign (codes "down"))
unfolding embed_all embed_document embed_found find_chunks find_ids chunk_source delete_rows
loop_down = refl

process-IsGivenUp_example :
    IsGivenUp down base small nomic nomic_model world known
      (foreign (codes "down"))
      apart
      loop_down
      (process down (reembed_job 1 small nomic) none world)
process-IsGivenUp_example =
    process-IsGivenUp down base small nomic nomic_model world known (foreign (codes "down")) apart
      loop_down none refl refl base_buildable refl

-- the port is down with a message that is no reason
abbrev refusing : Worker
refusing = record down { accepts_reason = λ r. false }

loop-refusing :
    (loop refusing base small nomic nomic_model world known (foreign (codes "down"))).0
    ≡ err (foreign (codes "down"))
unfolding embed_all embed_document embed_found find_chunks find_ids chunk_source delete_rows
loop-refusing = refl

process_reembed_stuck_example :
    let out = process refusing (reembed_job 1 small nomic) none world in
    (out.0 ≡ err invalid_value)
    × ((out.1).bases ≡ world.bases)
    × KeepsOthers refusing base small nomic nomic_model world known (foreign (codes "down")) out.1
process_reembed_stuck_example =
    process_reembed_stuck refusing base small nomic nomic_model world known (foreign (codes "down"))
      apart loop-refusing none refl
