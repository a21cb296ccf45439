-- ===== src/Embeddings/Jobs/Success.antt =====
-- The job of a re-embedding from its frame to its end, where every document of the knowledge base is embedded
-- (src/contexts/embeddings/infrastructure/processors/reembed-knowledge-base.processor.ts).
use shiori_api.Shared.{
  ℕ, ◌≡◌, refl, sym, ap, ◌∙◌, subst, Bool, true, false, not, some, List, [], ◌∷◌, ◌++◌, Str, str_eq,
  ◌==◌, arith, filter, find, map, map-All, str_eq_sound, str_eq_iff, filter-append, ==_refl, All,
  All-map, Bool-cases, inl, inr, append-nil, filter-none, filter-All, filter-filter, Option,
  if◌then◌else◌,
}
use shiori_api.Tenancy.{Result, ok}
use shiori_api.Documents.Queries.{find_ids}
use shiori_api.KnowledgeBases.Aggregate.{KnowledgeBase, ready}
use shiori_api.KnowledgeBases.Commands.Keys.{IsBuildable, is_base, find-saved}
use shiori_api.KnowledgeBases.Commands.Outcome.{moved, after_move, execute_complete-ready}
use shiori_api.Embeddings.Registry.{EmbeddingModel, get_or_throw}
use shiori_api.Embeddings.World.{Joined, Embedding, World, Worker}
use shiori_api.Embeddings.Storage.{
  EmbeddingAggregate, stamp, delete_rows, is_of, delete_by_knowledge_base_id_and_model,
}
use shiori_api.Embeddings.Storage.Index.{
  IsFormed, passage, passages, saved-IsFormed, candidates-saved, candidates-delete,
}
use shiori_api.Embeddings.Search.{candidates}
use shiori_api.Embeddings.Search.Nearest.{table_for-model, candidates-All}
use shiori_api.Embeddings.Jobs.{
  reembed, process_reembed, delete_previous, complete, process, reembed_job,
}
use shiori_api.Embeddings.Jobs.Plan.{plan_all, plan_all-AreOwn, embedded, IsSavable}
use shiori_api.Embeddings.Jobs.Reembed.{embed_all-plan}

module _ (w : Worker) (k : KnowledgeBase) (previous new : Str) (m : EmbeddingModel)
    (known : get_or_throw new ≡ ok m) (s : World) (es : List EmbeddingAggregate) where
  -- the world without the rows of an earlier attempt
  abbrev pub cleared : World
  cleared = delete_rows (is_of k.id new) s

  abbrev pub ids : List ℕ
  ids = find_ids k.id s.documents.documents

  abbrev grown : World
  grown = embedded w k.id new m.dimensions m.dimensions es cleared

  abbrev pruned : World
  pruned = if not (str_eq previous new) then delete_rows (is_of k.id previous) grown else grown

  abbrev finished : World
  finished = record pruned { bases = after_move w.valid w.values w.now k ready s.bases }

  delete_previous-pruned : delete_previous w k.id previous new (some k.id) grown ≡ (ok tt, pruned)
  unfolding delete_previous delete_by_knowledge_base_id_and_model
  delete_previous-pruned = elim (Bool-cases (str_eq previous new)) [
    | inl e ↦ rw e refl
    | inr e ↦ rw e refl
  ]

  pruned-bases : pruned.bases ≡ s.bases
  unfolding delete_rows
  pruned-bases = elim (Bool-cases (str_eq previous new)) [ inl e ↦ rw e refl | inr e ↦ rw e refl ]

  module _ (planned : plan_all w k.id new m.dimensions s.documents.chunks ids s.generated ≡ ok es)
      (savable : IsSavable w k.id new m.dimensions es cleared)
      (row : filter (is_base k.id) s.bases.bases ≡ k ∷ []) (buildable : IsBuildable w.valid k)
      (valid : w.valid (moved w.valid w.values w.now k ready) ≡ true) where
    process-finished :
        (ctx : Option ℕ) → process_reembed w k.id previous new ctx s ≡ (ok tt, finished)
    unfolding process_reembed reembed delete_by_knowledge_base_id_and_model complete delete_rows
    process-finished ctx =
        rw
          (
            known,
            embed_all-plan w k.id new m.dimensions m.dimensions (table_for-model new m known) ids
                cleared es planned savable,
            delete_previous-pruned,
            pruned-bases,
            execute_complete-ready w.valid w.values w.now k s.bases row buildable valid,
          )
          refl

  -- What a re-embedding leaves: the knowledge base READY, and in the index under the new model the planned
  -- passages, one for each chunk, and nothing else.
  pub record IsReembedded (out : Result (Unit {0}) × World) : Type 0 where
    pub done : out.0 ≡ ok tt
    pub index : candidates m.dimensions k.id new out.1 ≡ passages k.id es
    pub previous_gone :
        (n : ℕ) → str_eq previous new ≡ false → candidates n k.id previous out.1 ≡ []
    pub others :
        filter (λ e. not (e.knowledge_base_id == k.id)) (out.1).embeddings
        ≡ filter (λ e. not (e.knowledge_base_id == k.id)) s.embeddings
    pub base : find (is_base k.id) (out.1).bases.bases ≡ some (moved w.valid w.values w.now k ready)

  -- a deletion of what an index has under a name
  deleted-empty :
      (n : ℕ) (model : Str) (t : World)
      → IsFormed t
      → candidates n k.id model (delete_rows (is_of k.id model) t) ≡ []
  deleted-empty n model t formed =
      candidates-delete (is_of k.id model) n k.id model t formed
      ∙ filter-none (λ (j : Joined). not (is_of k.id model j.row)) (candidates n k.id model t)
          (All-map (λ j own. ap not own) (candidates n k.id model t)
            (candidates-All n k.id model t))

  module _ (formed : IsFormed s)
      (planned : plan_all w k.id new m.dimensions s.documents.chunks ids s.generated ≡ ok es)
      (savable : IsSavable w k.id new m.dimensions es cleared) where
    own : All (λ (j : Joined). is_of k.id new j.row ≡ true) (passages k.id es)
    own =
        map-All (λ (j : Joined). is_of k.id new j.row ≡ true) (passage k.id) es
          (plan_all-AreOwn w k.id new m.dimensions s.documents.chunks ids s.generated es planned)

    grown-index : candidates m.dimensions k.id new grown ≡ passages k.id es
    unfolding candidates
    grown-index =
        candidates-saved k.id m.dimensions m.dimensions es cleared (table_for-model new m known)
          savable.owned savable.formed savable.fresh k.id new
        ∙ ap (λ l. l ++ filter (λ (j : Joined). is_of k.id new j.row) (passages k.id es))
            (deleted-empty m.dimensions new s formed)
        ∙ filter-All (λ (j : Joined). is_of k.id new j.row) (passages k.id es) own

    grown-IsFormed : IsFormed grown
    grown-IsFormed =
        saved-IsFormed k.id m.dimensions m.dimensions es cleared (table_for-model new m known)
          savable.owned savable.formed savable.fresh

    other_model :
        (j : Joined)
        → str_eq previous new ≡ false
        → is_of k.id new j.row ≡ true
        → not (is_of k.id previous j.row) ≡ true
    other_model j apart own_j = elim (Bool-cases (is_of k.id previous j.row)) [
      | inr e ↦ ap not e
      | inl e ↦
          let was = str_eq_sound j.row.model previous (ground (arith, e)) in
          let is = str_eq_sound j.row.model new (ground (arith, own_j)) in
          let c = (str_eq_iff previous new).1 (sym was ∙ is) in ground (arith, c, apart)
    ]

    pruned-index : candidates m.dimensions k.id new pruned ≡ passages k.id es
    pruned-index = elim (Bool-cases (str_eq previous new)) [
      | inl e ↦ rw e grown-index
      | inr e ↦ rw e (
          candidates-delete (is_of k.id previous) m.dimensions k.id new grown grown-IsFormed
          ∙ ap (filter (λ (j : Joined). not (is_of k.id previous j.row))) grown-index
          ∙ filter-All (λ (j : Joined). not (is_of k.id previous j.row)) (passages k.id es)
              (All-map (λ j. other_model j e) (passages k.id es) own))
    ]

    pruned-previous : (n : ℕ) → str_eq previous new ≡ false → candidates n k.id previous pruned ≡ []
    pruned-previous n e = rw e (deleted-empty n previous grown grown-IsFormed)

    abbrev foreign_row : Embedding → Bool
    foreign_row e = not (e.knowledge_base_id == k.id)

    -- deleting rows of the knowledge base keeps those of others
    deleted-foreign :
        (model : Str) (t : World)
        → filter foreign_row (delete_rows (is_of k.id model) t).embeddings
          ≡ filter foreign_row t.embeddings
    unfolding delete_rows
    deleted-foreign model t =
        filter-filter foreign_row (λ e. not (is_of k.id model e)) t.embeddings
          (λ e h. ground (arith, h))

    grown-foreign : filter foreign_row grown.embeddings ≡ filter foreign_row s.embeddings
    grown-foreign =
        filter-append foreign_row cleared.embeddings (map (stamp k.id) es)
        ∙ ap (λ l. filter foreign_row cleared.embeddings ++ l)
            (filter-none foreign_row (map (stamp k.id) es) (
              map-All (λ e. foreign_row e ≡ false) (stamp k.id) es
                (All-map (λ a own_a. ap not (==_refl k.id)) es
                  (plan_all-AreOwn w k.id new m.dimensions s.documents.chunks ids s.generated es
                    planned))))
        ∙ append-nil (filter foreign_row cleared.embeddings)
        ∙ deleted-foreign new s

    pruned-foreign : filter foreign_row pruned.embeddings ≡ filter foreign_row s.embeddings
    pruned-foreign = elim (Bool-cases (str_eq previous new)) [
      | inl e ↦ rw e grown-foreign
      | inr e ↦ rw e (deleted-foreign previous grown ∙ grown-foreign)
    ]

    -- The re-embedding of a knowledge base to a known model, for whose documents the chunks, the embedding port and
    -- the builder give the aggregates `es`, one for each chunk, with documents and chunks that are
    -- there and fresh identifiers, succeeds whatever the tables hold of an earlier attempt: a search under
    -- the new model ranges over the passages of `es` and nothing else, none is left of a previous model of
    -- another name, the rows of other knowledge bases are kept, and the knowledge base is READY.
    pub process-IsReembedded :
        (ctx : Option ℕ)
        → filter (is_base k.id) s.bases.bases ≡ k ∷ []
        → IsBuildable w.valid k
        → w.valid (moved w.valid w.values w.now k ready) ≡ true
        → IsReembedded (process w (reembed_job k.id previous new) ctx s)
    unfolding process candidates
    process-IsReembedded ctx row buildable valid =
        subst IsReembedded (sym (process-finished planned savable row buildable valid ctx))
          (record {
            done = refl;
            index = pruned-index;
            previous_gone = pruned-previous;
            others = pruned-foreign;
            base = find-saved k (moved w.valid w.values w.now k ready) refl s.bases.bases;
          })
