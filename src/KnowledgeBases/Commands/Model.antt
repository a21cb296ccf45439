-- ===== src/KnowledgeBases/Commands/Model.antt =====
-- Changing the embedding model, and re-embedding under the same one.
use shiori_api.Shared.{
  ℕ, ◌≡◌, ◌≢◌, refl, ap, Bool, true, false, some, [], ◌∷◌, ◌++◌, Str, filter, find, ◌∙◌, find-sole,
  Bool-cases, inl, inr,
}
use shiori_api.Exceptions.{reembedding_in_progress}
use shiori_api.Tenancy.{ok, err, upsert}
use shiori_api.KnowledgeBases.Aggregate.{
  KnowledgeBase, Values, ready, reembedding, complete_reembedding, is_reembedding, touch,
  base_model_change_requested, change_embedding_model,
}
use shiori_api.KnowledgeBases.Store.{Store}
use shiori_api.KnowledgeBases.Commands.{execute_change_model, execute_reembed, execute_complete}
use shiori_api.KnowledgeBases.Commands.Keys.{find-saved, IsBuildable, build-IsBuildable, is_base}

other_model :
    (kit : Values) (k : KnowledgeBase) (model : Str)
    → k.embedding_model ≢ model
    → kit.equals k.embedding_model model ≡ false
other_model kit k model other = elim (Bool-cases (kit.equals k.embedding_model model)) [
  | inl e ↦ elim (other ((kit.equals_iff k.embedding_model model).0 e)) [ ]
  | inr e ↦ e
]

module _ (valid : KnowledgeBase → Bool) (kit : Values) (now : ℕ) (k : KnowledgeBase)
    (buildable : IsBuildable valid k) where
  -- ChangeKnowledgeBaseEmbeddingModel to a known model that the knowledge base already has succeeds in every
  -- status, REEMBEDDING included, and changes neither a row nor the events.
  pub change_model_same :
      (is_known : Str → Bool) (s : Store)
      → filter (is_base k.id) s.bases ≡ k ∷ []
      → is_known k.embedding_model ≡ true
      → execute_change_model valid kit now is_known k.id k.embedding_model s
        ≡ (ok tt, record s { builder = k })
  unfolding execute_change_model
  change_model_same is_known s row known =
      rw
        (
          find-sole (is_base k.id) k s.bases row,
          build-IsBuildable valid k buildable,
          known,
          (kit.equals_iff k.embedding_model k.embedding_model).1 refl,
        )
        refl

  -- While the knowledge base is REEMBEDDING, a change to another known model and a re-embedding are both
  -- refused with KnowledgeBaseReembeddingInProgressException, and neither changes a row or the events.
  pub reembedding_refuses :
      (is_known : Str → Bool) (model : Str) (s : Store)
      → filter (is_base k.id) s.bases ≡ k ∷ []
      → is_known model ≡ true
      → k.embedding_model ≢ model
      → is_reembedding k.embedding_status ≡ true
      → (execute_change_model valid kit now is_known k.id model s
          ≡ (err (reembedding_in_progress k.id), record s { builder = k }))
        × (execute_reembed valid kit now k.id s
            ≡ (err (reembedding_in_progress k.id), record s { builder = k }))
  unfolding execute_change_model execute_reembed
  reembedding_refuses is_known model s row known other busy = (
    rw
        (
          find-sole (is_base k.id) k s.bases row,
          build-IsBuildable valid k buildable,
          known,
          other_model kit k model other,
          busy,
        )
        refl,
    rw (find-sole (is_base k.id) k s.bases row, build-IsBuildable valid k buildable, busy) refl,
  )

  -- the aggregate behind the change, and behind the completion of the re-embedding
  abbrev pub changed : Str → KnowledgeBase
  changed model =
      touch kit now (record k { embedding_model = model; embedding_status = reembedding })

  abbrev pub completed : Str → KnowledgeBase
  completed model = touch kit now (record (changed model) { embedding_status = ready })

  abbrev pub after_change : Str → Store → Store
  after_change model s = record s {
    bases = upsert (λ x. x.id) (changed model) s.bases;
    builder = changed model;
    events = s.events ++ base_model_change_requested k.id k.embedding_model model ∷ [];
  }

  pub execute_change_model-changed :
      (is_known : Str → Bool) (model : Str) (s : Store)
      → filter (is_base k.id) s.bases ≡ k ∷ []
      → is_known model ≡ true
      → k.embedding_model ≢ model
      → is_reembedding k.embedding_status ≡ false
      → IsBuildable valid (changed model)
      → execute_change_model valid kit now is_known k.id model s ≡ (ok tt, after_change model s)
  unfolding execute_change_model change_embedding_model
  execute_change_model-changed is_known model s row known other idle buildable' =
      rw
        (
          find-sole (is_base k.id) k s.bases row,
          build-IsBuildable valid k buildable,
          known,
          other_model kit k model other,
          idle,
          other_model kit k model other,
          build-IsBuildable valid (changed model) buildable',
        )
        refl

  execute_complete-completed :
      (model : Str) (s : Store)
      → find (is_base k.id) s.bases ≡ some (changed model)
      → IsBuildable valid (changed model)
      → IsBuildable valid (completed model)
      → execute_complete valid kit now k.id s ≡ (
        ok tt,
        record s {
          bases = upsert (λ x. x.id) (completed model) s.bases;
          builder = completed model;
          events = s.events ++ [];
        },
      )
  unfolding execute_complete complete_reembedding
  execute_complete-completed model s row buildable' buildable'' =
      rw
        (
          row,
          build-IsBuildable valid (changed model) buildable',
          build-IsBuildable valid (completed model) buildable'',
        )
        refl

  -- A change to another known model, while the knowledge base is not REEMBEDDING, succeeds: the row has the
  -- new model and is REEMBEDDING, and KnowledgeBaseEmbeddingModelChangeRequested is published with both models.
  -- The completion of that re-embedding succeeds and leaves the row READY, with the new model.
  pub model_change_cycle :
      (is_known : Str → Bool) (model : Str) (s : Store)
      → filter (is_base k.id) s.bases ≡ k ∷ []
      → is_known model ≡ true
      → k.embedding_model ≢ model
      → is_reembedding k.embedding_status ≡ false
      → IsBuildable valid (changed model)
      → IsBuildable valid (completed model)
      → let requested = execute_change_model valid kit now is_known k.id model s in
        let finished = execute_complete valid kit now k.id requested.1 in
        (requested.0 ≡ ok tt)
        × (find (is_base k.id) (requested.1).bases ≡ some (changed model))
        × ((requested.1).events
            ≡ s.events ++ base_model_change_requested k.id k.embedding_model model ∷ [])
        × (finished.0 ≡ ok tt)
        × (find (is_base k.id) (finished.1).bases ≡ some (completed model))
  model_change_cycle is_known model s row known other idle buildable' buildable'' =
      let requested =
        execute_change_model-changed is_known model s row known other idle buildable' in
      let saved = find-saved k (changed model) refl s.bases in
      let finished =
        ap (λ r. execute_complete valid kit now k.id r.1) requested
        ∙ execute_complete-completed model (after_change model s) saved buildable' buildable'' in
      (
        ap (λ r. r.0) requested,
        ap (λ r. find (is_base k.id) (r.1).bases) requested ∙ saved,
        ap (λ r. (r.1).events) requested,
        ap (λ r. r.0) finished,
        ap (λ r. find (is_base k.id) (r.1).bases) finished
            ∙ find-saved k (completed model) refl (after_change model s).bases,
      )
