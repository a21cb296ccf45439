-- ===== src/Embeddings/Listeners/Tests.antt =====
-- The change of the model of a knowledge base that is READY.
use shiori_api.Shared.{◌≡◌, ◌≢◌, refl, ap, true, none, [], ◌∷◌, ◌++◌, str_eq, arith}
use shiori_api.Tenancy.{ok}
use shiori_api.Documents.Queries.{find_ids}
use shiori_api.Documents.Queries.Chunks.{find_chunks}
use shiori_api.KnowledgeBases.Aggregate.{KnowledgeBase, ready}
use shiori_api.KnowledgeBases.Commands.Keys.{IsBuildable}
use shiori_api.Embeddings.World.{World, reembed_job}
use shiori_api.Embeddings.Storage.{build, all_owned, delete_rows}
use shiori_api.Embeddings.Jobs.{process}
use shiori_api.Embeddings.Jobs.Plan.{plan_all, plan_document, plan_found, plan_chunks}
use shiori_api.Embeddings.Jobs.Success.{IsReembedded}
use shiori_api.Embeddings.Listeners.ModelChange.{
  requested, delivered, changed_base, model_change_carried,
}
use shiori_api.Embeddings.Tests.{worker, base, world, planned, small, nomic, nomic_model, known}

abbrev ready_base : KnowledgeBase
ready_base = record base { embedding_model = small; embedding_status = ready }

abbrev ready_world : World
ready_world = record world { bases = record world.bases { bases = ready_base ∷ [] } }

buildable : IsBuildable (λ k. true) ready_base
buildable = record { has_name = refl; has_key_hash = refl; has_model = refl; valid_values = refl }

small_is_not_nomic : small ≢ nomic
small_is_not_nomic h = let c = ap (str_eq small) h in ground arith

model_change_carried_example :
    let start =
      requested worker
        (λ m. true)
        ready_base
        nomic
        nomic_model
        known
        ready_world
        planned
        buildable in
    let later =
      delivered worker
        (λ m. true)
        ready_base
        nomic
        nomic_model
        known
        ready_world
        planned
        buildable in
    (start.0 ≡ ok tt)
    × ((later.1).jobs ≡ [] ++ reembed_job 1 small nomic ∷ [])
    × IsReembedded worker
        (changed_base worker
          (λ m. true)
          ready_base
          nomic
          nomic_model
          known
          ready_world
          planned
          buildable)
        small
        nomic
        nomic_model
        known
        later.1
        planned
        (process worker (reembed_job 1 small nomic) none later.1)
unfolding plan_all plan_document plan_found plan_chunks build all_owned delete_rows find_chunks
    find_ids
model_change_carried_example =
    model_change_carried worker (λ m. true) ready_base nomic nomic_model known ready_world planned
      buildable refl refl small_is_not_nomic refl
      (record { has_name = refl; has_key_hash = refl; has_model = refl; valid_values = refl })
      (record { sole = (refl, (refl, tt)); owned = (refl, (refl, tt)) }) refl
      (record {
        owned = refl;
        formed = record { sole = (refl, tt); owned = (refl, tt) };
        fresh = ((refl, tt), ((refl, (refl, tt)), tt));
      })
      refl
