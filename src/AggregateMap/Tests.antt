-- ===== src/AggregateMap/Tests.antt =====
-- The tree of the repository, with the declarations of its aggregate files, and the file that the script has generated.
use shiori_api.Shared.{◌≡◌, refl, true, none, some, List, [], ◌∷◌, ◌++◌, Str, codes}
use shiori_api.AggregateMap.{
  Entry, main, up_to_date, out_of_date, collect_mappings, join_lines, header_lines,
  is_aggregate_file, exported_aggregates, clashes, get, set, sort_mappings, str_ltb,
}
use shiori_api.AggregateMap.Declared.{declared}
use shiori_api.AggregateMap.Outcome.{IsCollected, collect_mappings-IsCollected}

abbrev documents : Entry
documents = record {
  name = codes "documents";
  is_directory = true;
  aggregates = some (
      record {
        name = codes "chunk.aggregate.ts";
        source = codes "export class ChunkAggregate extends BaseAggregate {}";
      }
      ∷ record {
        name = codes "document.aggregate.spec.ts";
        source = codes "export class FakeAggregate {}";
      }
      ∷ record {
        name = codes "document.aggregate.ts";
        source = codes "// export  class\nexport class DocumentAggregate extends BaseAggregate {}";
      }
      ∷ []);
}

abbrev embeddings : Entry
embeddings = record {
  name = codes "embeddings";
  is_directory = true;
  aggregates = some (
      record {
        name = codes "embedding.aggregate.ts";
        source = codes "export class EmbeddingAggregate extends BaseAggregate {}";
      }
      ∷ []);
}

abbrev knowledge_bases : Entry
knowledge_bases = record {
  name = codes "knowledge-bases";
  is_directory = true;
  aggregates = some (
      record {
        name = codes "knowledge-base.aggregate.ts";
        source = codes "export class KnowledgeBaseAggregate extends BaseAggregate {}";
      }
      ∷ []);
}

abbrev retrieval : Entry
retrieval = record { name = codes "retrieval"; is_directory = true; aggregates = none }

abbrev tree : List Entry
tree = knowledge_bases ∷ documents ∷ embeddings ∷ retrieval ∷ []

-- src/core/messaging/domain/topics/aggregate-module.map.generated.ts
abbrev generated : Str
generated = join_lines (
    header_lines
    ++ codes "  ChunkAggregate: 'documents',"
      ∷ codes "  DocumentAggregate: 'documents',"
      ∷ codes "  EmbeddingAggregate: 'embeddings',"
      ∷ codes "  KnowledgeBaseAggregate: 'knowledge-bases',"
      ∷ codes "};"
      ∷ codes ""
      ∷ [])

main-up_to_date : main true (some generated) (some tree) ≡ up_to_date 4
unfolding main is_aggregate_file exported_aggregates clashes get set sort_mappings str_ltb
main-up_to_date = refl

main-missing : main true none (some tree) ≡ out_of_date
unfolding main is_aggregate_file exported_aggregates clashes get set
main-missing = refl

collect_mappings-IsCollected_example : IsCollected (declared tree) (collect_mappings (some tree))
unfolding declared is_aggregate_file exported_aggregates
collect_mappings-IsCollected_example =
    collect_mappings-IsCollected tree (refl, (refl, (refl, (refl, tt))))
