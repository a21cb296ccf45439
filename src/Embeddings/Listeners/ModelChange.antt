-- ===== src/Embeddings/Listeners/ModelChange.antt =====
-- A change of the embedding model from the command to the end of the job: the handler of src/contexts/knowledge-bases, the
-- listener on its event, and the job of src/contexts/embeddings.
use shiori_api.Shared.{
  ◌≡◌, ◌≢◌, refl, sym, ap, ◌∙◌, subst, Bool, true, false, none, List, [], ◌∷◌, ◌++◌, Str, filter,
  drop, length, drop-length-append,
}
use shiori_api.Tenancy.{Result, ok}
use shiori_api.KnowledgeBases.Aggregate.{
  KnowledgeBase, ready, is_reembedding, base_model_change_requested,
}
use shiori_api.KnowledgeBases.Commands.{execute_change_model}
use shiori_api.KnowledgeBases.Commands.Keys.{IsBuildable, is_base, upsert-sole}
use shiori_api.KnowledgeBases.Commands.Model.{changed, after_change, execute_change_model-changed}
use shiori_api.KnowledgeBases.Commands.Outcome.{moved}
use shiori_api.Embeddings.Registry.{EmbeddingModel, get_or_throw}
use shiori_api.Embeddings.World.{World, Worker, reembed_job, in_bases}
use shiori_api.Embeddings.Storage.{EmbeddingAggregate, delete_rows, is_of}
use shiori_api.Embeddings.Storage.Index.{IsFormed}
use shiori_api.Embeddings.Jobs.{process, enqueue}
use shiori_api.Documents.Queries.{find_ids}
use shiori_api.Embeddings.Jobs.Plan.{plan_all, IsSavable}
use shiori_api.Embeddings.Jobs.Success.{IsReembedded, process-IsReembedded}
use shiori_api.Embeddings.Listeners.{on_base_event, on_base_events, enqueue_reembed}

module _ (w : Worker) (is_known : Str → Bool) (k : KnowledgeBase) (new : Str) (m : EmbeddingModel)
    (known : get_or_throw new ≡ ok m) (s : World) (es : List EmbeddingAggregate)
    (buildable : IsBuildable w.valid k) where
  -- the command
  abbrev pub requested : Result (Unit {0}) × World
  requested = in_bases (execute_change_model w.valid w.values w.now is_known k.id new) none s

  -- the events that it published, at the listeners
  abbrev pub delivered : Result (Unit {0}) × World
  delivered =
      on_base_events (drop (length s.bases.events) (requested.1).bases.events) none requested.1

  abbrev pub changed_base : KnowledgeBase
  changed_base = changed w.valid w.values w.now k buildable new

  abbrev after_request : World
  after_request = record s { bases = after_change w.valid w.values w.now k buildable new s.bases }

  abbrev after_delivery : World
  after_delivery = record after_request {
    jobs = s.jobs ++ reembed_job k.id k.embedding_model new ∷ [];
  }

  module _ (row : filter (is_base k.id) s.bases.bases ≡ k ∷ []) (offered : is_known new ≡ true)
      (other : k.embedding_model ≢ new) (idle : is_reembedding k.embedding_status ≡ false)
      (buildable' : IsBuildable w.valid changed_base) where
    requested-changed : requested ≡ (ok tt, after_request)
    requested-changed =
        ap (λ r. (r.0, record s { bases = r.1 }))
          (execute_change_model-changed w.valid w.values w.now k buildable is_known new s.bases row
            offered other idle buildable')

    delivered-queued : delivered ≡ (ok tt, after_delivery)
    unfolding on_base_events on_base_event enqueue_reembed enqueue
    delivered-queued =
        ap (λ r. on_base_events (drop (length s.bases.events) (r.1).bases.events) none r.1)
          requested-changed
        ∙ rw
            (drop-length-append s.bases.events
              (base_model_change_requested k.id k.embedding_model new ∷ []))
            refl

    -- ChangeKnowledgeBaseEmbeddingModel to another known model of the catalogue, while the knowledge base is not
    -- REEMBEDDING, is carried through: the command succeeds; the listener on its event queues one job; and that
    -- job, if the chunks, the embedding port and the builder give the aggregates `es` for the
    -- documents, under fresh identifiers, succeeds, and leaves the knowledge base READY, the passages of
    -- `es` and no others under the new model, none under the previous one, and the rows of other
    -- knowledge bases as they were.
    pub model_change_carried :
        IsFormed s
        → plan_all w k.id new m.dimensions s.documents.chunks
            (find_ids k.id s.documents.documents)
            s.generated
          ≡ ok es
        → IsSavable w k.id new m.dimensions es (delete_rows (is_of k.id new) s)
        → w.valid (moved w.valid w.values w.now changed_base ready) ≡ true
        → (requested.0 ≡ ok tt)
          × ((delivered.1).jobs ≡ s.jobs ++ reembed_job k.id k.embedding_model new ∷ [])
          × IsReembedded w changed_base k.embedding_model new m known delivered.1 es
              (process w (reembed_job k.id k.embedding_model new) none delivered.1)
    unfolding delete_rows
    model_change_carried formed planned savable valid = (
      ap (λ r. r.0) requested-changed,
      ap (λ r. (r.1).jobs) delivered-queued,
      subst
          (λ (r : Result (Unit {0}) × World).
            IsReembedded w changed_base k.embedding_model new m known r.1 es
              (process w (reembed_job k.id k.embedding_model new) none r.1))
          (sym delivered-queued)
          (process-IsReembedded w changed_base k.embedding_model new m known after_delivery es
            formed planned
            (record { owned = savable.owned; formed = savable.formed; fresh = savable.fresh }) none
            (upsert-sole k changed_base refl s.bases.bases row) buildable' valid),
    )
