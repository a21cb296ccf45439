-- ===== src/Embeddings/Removal/Tests.antt =====
-- Two knowledge bases with a document each, of which the first is deleted.
use shiori_api.Shared.{ℕ, refl, [], ◌∷◌, ◌==◌, ◌||◌, if◌then◌else◌, none}
use shiori_api.Documents.Tests as Documents
use shiori_api.Documents.Tests.Purge.{first_rows, first_rows-IsPaging}
use shiori_api.KnowledgeBases.Commands.Keys.{IsBuildable}
use shiori_api.Embeddings.World.{World}
use shiori_api.Embeddings.Removal.{remove_knowledge_base}
use shiori_api.Embeddings.Removal.Tables.{IsOwned}
use shiori_api.Embeddings.Removal.Outcome.{IsRemoved, remove_knowledge_base-IsRemoved}
use shiori_api.Embeddings.Tests.{worker, base, document, chunk_at, row_of, nomic, world}

owner : ℕ → ℕ
owner i = if (i == 4) || ((i == 20) || (i == 60)) then 2 else 1

abbrev two_bases : World
two_bases = record world {
  bases = record world.bases { bases = base ∷ record base { id = 2 } ∷ [] };
  documents = record world.documents {
    documents = document ∷ record document { id = 4; knowledge_base_id = 2 } ∷ [];
    chunks = chunk_at 10 0 ∷ record (chunk_at 20 0) { document_id = 4; knowledge_base_id = 2 } ∷ [];
  };
  embeddings =
      row_of 50 nomic
      ∷ record (row_of 60 nomic) { document_id = 4; chunk_id = 20; knowledge_base_id = 2 }
      ∷ [];
  vectors =
      record { dimensions = 768; embedding_id = 50; embedding = 1 ∷ [] }
      ∷ record { dimensions = 768; embedding_id = 60; embedding = 2 ∷ [] }
      ∷ [];
}

buildable : IsBuildable worker.valid base
buildable = record { has_name = refl; has_key_hash = refl; has_model = refl; valid_values = refl }

two_bases-IsOwned : IsOwned owner two_bases
unfolding owner
two_bases-IsOwned = record {
  documents = record {
    documents = (refl, (refl, tt));
    chunks = ((refl, refl), ((refl, refl), tt));
    jobs = tt;
    there = (refl, (refl, tt));
  };
  embeddings = ((refl, refl, refl), ((refl, refl, refl), tt));
}

remove_knowledge_base-IsRemoved_example :
    IsRemoved worker base buildable Documents.kit first_rows 3 two_bases
      (remove_knowledge_base worker 1 none two_bases)
remove_knowledge_base-IsRemoved_example =
    remove_knowledge_base-IsRemoved worker base buildable Documents.kit first_rows 3
      first_rows-IsPaging owner two_bases refl two_bases-IsOwned
