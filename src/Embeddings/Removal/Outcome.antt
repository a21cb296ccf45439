-- ===== src/Embeddings/Removal/Outcome.antt =====
-- What the deletion of a knowledge base leaves in the tables of all contexts, and what its listeners then find.
use shiori_api.Shared.{
  ℕ, suc, ◌≡◌, refl, sym, ap, ◌∙◌, subst, Bool, true, not, some, none, List, [], ◌∷◌, ◌++◌, ◌==◌,
  arith, filter, All, filter-filter, filter-filter-none, find-sole,
}
use shiori_api.Tenancy.{Result, ok}
use shiori_api.Documents.Aggregate as Documents
use shiori_api.Documents.Store
use shiori_api.Documents.Store.Ownership.{other_documents, other_chunks}
use shiori_api.Documents.Commands.{on_knowledge_base_deleted}
use shiori_api.Documents.Commands.Purge.{IsPaging, next_page, turn-last}
use shiori_api.KnowledgeBases.Aggregate.{KnowledgeBase, event_data, base_deleted, delete}
use shiori_api.KnowledgeBases.Store as Bases
use shiori_api.KnowledgeBases.Commands.{execute_delete}
use shiori_api.KnowledgeBases.Commands.Keys.{IsBuildable, build-IsBuildable, is_base}
use shiori_api.Embeddings.World.{World, Worker}
use shiori_api.Embeddings.Storage.{delete_rows}
use shiori_api.Embeddings.Jobs.{execute_delete_by_knowledge_base}
use shiori_api.Embeddings.Listeners.{on_base_event}
use shiori_api.Embeddings.Removal.{remove_knowledge_base, cascade}
use shiori_api.Embeddings.Removal.Tables.{
  of_base, is_other_vector, IsOwned, removed, cascade-removed,
}

All-absurd : {A : Type 0} (xs : List A) → All (λ _. ⊥) xs → xs ≡ []
All-absurd [] h = refl
All-absurd (x ∷ xs) (h, _) = absurd h

filter-true : {A : Type 0} (xs : List A) → filter (λ x. true) xs ≡ xs
filter-true [] = refl
filter-true (x ∷ xs) = ap (λ l. x ∷ l) (filter-true xs)

module _ (kb : ℕ) where
  -- the documents' listener, where no document is left
  purge-idle :
      (kit : Documents.Kit)
      (page_of : ℕ
        → (Documents.Document → Bool)
        → List Documents.Document
        → List Documents.Document)
      → IsPaging page_of
      → (fuel : ℕ) (s : Store.Store) → filter (λ d. d.knowledge_base_id == kb) s.documents ≡ []
      → on_knowledge_base_deleted kit page_of (suc fuel) kb none s ≡ (ok (some tt), s)
  unfolding on_knowledge_base_deleted next_page
  purge-idle kit page_of paging fuel s none_left = turn-last kit page_of kb fuel s (
      All-absurd _ (
        paging.rows_only (λ d. d.knowledge_base_id == kb) s.documents (λ _. ⊥)
          (subst (All (λ _. ⊥)) (sym none_left) tt)))

  -- a second deletion of the rows of a knowledge base
  rows-idle :
      (owner : ℕ → ℕ) (s : World)
      → delete_rows (of_base kb) (removed owner kb s) ≡ removed owner kb s
  unfolding delete_rows
  rows-idle owner s =
      let rows_stay =
        filter-filter (λ e. not (of_base kb e)) (λ e. not (of_base kb e)) s.embeddings (λ e h. h) in
      let none_left =
        filter-filter-none (of_base kb) (λ e. not (of_base kb e)) s.embeddings
          (λ e h. ground arith) in
      rw (rows_stay, none_left)
        (ap (λ vs. record (removed owner kb s) { vectors = vs })
          (filter-true (removed owner kb s).vectors))

module _ (w : Worker) (k : KnowledgeBase) (buildable : IsBuildable w.valid k) (kit : Documents.Kit)
    (page_of : ℕ → (Documents.Document → Bool) → List Documents.Document → List Documents.Document)
    (fuel : ℕ) where
  -- the world with the knowledge base's row gone, and its event published
  abbrev pub announced : World → World
  announced s = record s {
    bases = record {
      bases = filter (λ x. not (is_base k.id x)) s.bases.bases;
      events = s.bases.events ++ base_deleted (event_data k) ∷ [];
      builder = k;
    };
  }

  remove_knowledge_base-cascade :
      (s : World)
      → filter (is_base k.id) s.bases.bases ≡ k ∷ []
      → remove_knowledge_base w k.id none s ≡ (ok tt, cascade k.id (announced s))
  unfolding remove_knowledge_base execute_delete Bases.assert_exists Bases.delete_base Bases.publish
      delete
  remove_knowledge_base-cascade s row =
      rw (find-sole (is_base k.id) k s.bases.bases row, build-IsBuildable w.valid k buildable) refl

  -- What a deletion leaves, and the listeners, which find nothing to do.
  pub record IsRemoved (s : World) (r : Result (Unit {0}) × World) : Type 1 where
    pub done : r.0 ≡ ok tt
    pub bases : (r.1).bases.bases ≡ filter (λ x. not (is_base k.id x)) s.bases.bases
    pub documents : (r.1).documents.documents ≡ other_documents k.id s.documents.documents
    pub chunks : (r.1).documents.chunks ≡ other_chunks k.id s.documents.chunks
    pub embeddings : (r.1).embeddings ≡ filter (λ e. not (of_base k.id e)) s.embeddings
    pub vectors : (r.1).vectors ≡ filter (is_other_vector k.id s.embeddings) s.vectors
    pub queued : ((r.1).jobs ≡ s.jobs) × ((r.1).documents.jobs ≡ s.documents.jobs)
    pub published : (r.1).bases.events ≡ s.bases.events ++ base_deleted (event_data k) ∷ []
    pub documents_listener :
        on_knowledge_base_deleted kit page_of (suc fuel) k.id none (r.1).documents
        ≡ (ok (some tt), (r.1).documents)
    pub embeddings_listener : on_base_event (base_deleted (event_data k)) none r.1 ≡ (ok tt, r.1)

  removed-IsRemoved :
      IsPaging page_of
      → (owner : ℕ → ℕ) (s : World) → IsRemoved s (ok tt, removed owner k.id (announced s))
  unfolding delete_rows on_base_event execute_delete_by_knowledge_base
  removed-IsRemoved paging owner s = record {
    done = refl;
    bases = refl;
    documents = refl;
    chunks = refl;
    embeddings = refl;
    vectors = refl;
    queued = (refl, refl);
    published = refl;
    documents_listener =
        purge-idle k.id kit page_of paging fuel (removed owner k.id (announced s)).documents (
          filter-filter-none (λ d. d.knowledge_base_id == k.id)
            (λ d. not (d.knowledge_base_id == k.id)) s.documents.documents (λ d h. ground arith));
    embeddings_listener = ap (λ t. (ok tt, t)) (rows-idle k.id owner (announced s));
  }

  -- DeleteKnowledgeBase of a knowledge base that is there takes its documents, their chunks, and the passages and vectors of
  -- these with it, whatever their state, over the foreign keys, and leaves the rows of the other knowledge bases in all
  -- tables, and the queued jobs, as they were. The listeners on its event, in the contexts of documents and of embeddings,
  -- succeed and change nothing then, so that it does not matter which runs first. This takes it that the
  -- tables agree with the owners of identifiers, and that a page of the documents of a knowledge base has only such
  -- documents.
  pub remove_knowledge_base-IsRemoved :
      IsPaging page_of
      → (owner : ℕ → ℕ) (s : World) → filter (is_base k.id) s.bases.bases ≡ k ∷ []
      → IsOwned owner s
      → IsRemoved s (remove_knowledge_base w k.id none s)
  remove_knowledge_base-IsRemoved paging owner s row owned =
      subst (IsRemoved s)
        (sym (
          remove_knowledge_base-cascade s row
          ∙ ap (λ t. (ok tt, t))
              (cascade-removed owner k.id (announced s)
                (record { documents = owned.documents; embeddings = owned.embeddings }))))
        (removed-IsRemoved paging owner s)
