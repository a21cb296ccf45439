-- ===== src/KnowledgeBases/Commands/Outcome.antt =====
-- How a re-embedding ends for the knowledge base: the handlers of completion and failure on a row.
use shiori_api.Shared.{ℕ, ◌≡◌, refl, Bool, true, [], ◌++◌, filter, find-sole, ◌∷◌}
use shiori_api.Tenancy.{ok, upsert}
use shiori_api.KnowledgeBases.Aggregate.{
  KnowledgeBase, Values, EmbeddingStatus, ready, unsuccessful, touch, complete_reembedding,
  fail_reembedding,
}
use shiori_api.KnowledgeBases.Store.{Store}
use shiori_api.KnowledgeBases.Commands.{execute_complete, execute_fail}
use shiori_api.KnowledgeBases.Commands.Keys.{IsBuildable, build-IsBuildable, is_base}

module _ (valid : KnowledgeBase → Bool) (kit : Values) (now : ℕ) (k : KnowledgeBase) where
  -- the row with another status
  abbrev pub moved : EmbeddingStatus → KnowledgeBase
  moved status = touch kit now (record k { embedding_status = status })

  abbrev pub after_move : EmbeddingStatus → Store → Store
  after_move status s = record s {
    bases = upsert (λ x. x.id) (moved status) s.bases;
    builder = moved status;
    events = s.events ++ [];
  }

  moved-IsBuildable :
      (status : EmbeddingStatus)
      → IsBuildable valid k
      → valid (moved status) ≡ true
      → IsBuildable valid (moved status)
  moved-IsBuildable status h valid_status = record {
    has_name = h.has_name;
    has_key_hash = h.has_key_hash;
    has_model = h.has_model;
    valid_values = valid_status;
  }

  module _ (s : Store) (row : filter (is_base k.id) s.bases ≡ k ∷ [])
      (buildable : IsBuildable valid k) where
    pub execute_complete-ready :
        valid (moved ready) ≡ true
        → execute_complete valid kit now k.id s ≡ (ok tt, after_move ready s)
    unfolding execute_complete complete_reembedding
    execute_complete-ready h =
        rw
          (
            find-sole (is_base k.id) k s.bases row,
            build-IsBuildable valid k buildable,
            build-IsBuildable valid (moved ready) (moved-IsBuildable ready buildable h),
          )
          refl

    pub execute_fail-unsuccessful :
        valid (moved unsuccessful) ≡ true
        → execute_fail valid kit now k.id s ≡ (ok tt, after_move unsuccessful s)
    unfolding execute_fail fail_reembedding
    execute_fail-unsuccessful h =
        rw
          (
            find-sole (is_base k.id) k s.bases row,
            build-IsBuildable valid k buildable,
            build-IsBuildable valid (moved unsuccessful)
                (moved-IsBuildable unsuccessful buildable h),
          )
          refl
