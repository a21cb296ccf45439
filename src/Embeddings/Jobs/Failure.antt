-- ===== src/Embeddings/Jobs/Failure.antt =====
-- The job of a re-embedding that throws while it embeds (the catch block of
-- src/contexts/embeddings/infrastructure/processors/reembed-knowledge-base.processor.ts).
use shiori_api.Shared.{
  ℕ, ◌≡◌, refl, sym, ap, ◌∙◌, subst, true, false, not, some, [], ◌∷◌, Str, ◌==◌, filter, find,
  All-filter, filter-filter, Option,
}
use shiori_api.Exceptions.{Exception, invalid_value}
use shiori_api.Tenancy.{Result, ok, err}
use shiori_api.Documents.Queries.{find_ids}
use shiori_api.KnowledgeBases.Aggregate.{KnowledgeBase, unsuccessful}
use shiori_api.KnowledgeBases.Commands.Keys.{IsBuildable, is_base, find-saved}
use shiori_api.KnowledgeBases.Commands.Outcome.{moved, after_move, execute_fail-unsuccessful}
use shiori_api.Embeddings.Registry.{EmbeddingModel, get_or_throw}
use shiori_api.Embeddings.World.{World, Worker, reembed_job}
use shiori_api.Embeddings.Storage.{delete_rows, is_of, delete_by_knowledge_base_id_and_model}
use shiori_api.Embeddings.Jobs.{embed_all, reembed, process_reembed, report, fail, process}
use shiori_api.Embeddings.Jobs.Kept.{other, AreApart, IsKept, Keeps-embed_all}

module _ (w : Worker) (k : KnowledgeBase) (previous new : Str) (m : EmbeddingModel) (s : World)
    (known : get_or_throw new ≡ ok m) (e : Exception) where
  abbrev cleared : World
  cleared = delete_rows (is_of k.id new) s

  -- the loop over the documents, behind the deletion of an earlier attempt's rows
  abbrev pub loop : Result (Unit {0}) × World
  loop = embed_all w k.id new m.dimensions (find_ids k.id s.documents.documents) (some k.id) cleared

  -- The rows outside the knowledge base and the new model are those of before.
  abbrev pub KeepsOthers : World → Type 0
  KeepsOthers t = filter (other w k.id new) t.embeddings ≡ filter (other w k.id new) s.embeddings

  module _ (apart : AreApart w k.id new s) (thrown : loop.0 ≡ err e) where
    loop-IsKept : IsKept w k.id new cleared loop.1
    unfolding delete_rows
    loop-IsKept =
        (Keeps-embed_all w k.id new m.dimensions (find_ids k.id s.documents.documents) cleared (
          All-filter (λ x. other w k.id new x ≡ true → (g : ℕ) → (x.id == w.uuid g) ≡ false)
            (λ x. not (is_of k.id new x)) s.embeddings apart)).0

    loop-others : KeepsOthers loop.1
    unfolding delete_rows
    loop-others =
        loop-IsKept.rows
        ∙ filter-filter (other w k.id new) (λ x. not (is_of k.id new x)) s.embeddings (λ x h. h)

    loop-bases : (loop.1).bases ≡ s.bases
    unfolding delete_rows
    loop-bases = loop-IsKept.bases

    process-reported :
        (ctx : Option ℕ)
        → process_reembed w k.id previous new ctx s ≡ report w k.id e (some k.id) loop.1
    unfolding process_reembed reembed delete_by_knowledge_base_id_and_model delete_rows
    process-reported ctx = rw (known, thrown) refl

    abbrev given_up : World
    given_up = record (loop.1) { bases = after_move w.valid w.values w.now k unsuccessful s.bases }

    report-given_up :
        w.accepts_reason (w.message e) ≡ true
        → filter (is_base k.id) s.bases.bases ≡ k ∷ []
        → IsBuildable w.valid k
        → w.valid (moved w.valid w.values w.now k unsuccessful) ≡ true
        → report w k.id e (some k.id) loop.1 ≡ (err e, given_up)
    unfolding report fail
    report-given_up accepted row buildable valid =
        rw
          (
            accepted,
            loop-bases,
            execute_fail-unsuccessful w.valid w.values w.now k s.bases row buildable valid,
          )
          refl

    -- What a failed re-embedding leaves.
    pub record IsGivenUp (out : Result (Unit {0}) × World) : Type 0 where
      pub rethrown : out.0 ≡ err e
      pub others : KeepsOthers out.1
      pub base :
          find (is_base k.id) (out.1).bases.bases
          ≡ some (moved w.valid w.values w.now k unsuccessful)

    -- A re-embedding to a known model whose loop over the documents throws, where no row outside the knowledge
    -- base and that model has an identifier that the worker generates, where the value object takes the message of the
    -- exception as a reason, and where the knowledge base is the only row of its identifier and the builder takes it
    -- before and behind the change: the exception is rethrown, the knowledge base is FAILED, and every row outside the
    -- knowledge base and the new model is kept, those of a previous model of another name among them.
    pub process-IsGivenUp :
        (ctx : Option ℕ)
        → w.accepts_reason (w.message e) ≡ true
        → filter (is_base k.id) s.bases.bases ≡ k ∷ []
        → IsBuildable w.valid k
        → w.valid (moved w.valid w.values w.now k unsuccessful) ≡ true
        → IsGivenUp (process w (reembed_job k.id previous new) ctx s)
    unfolding process
    process-IsGivenUp ctx accepted row buildable valid =
        subst IsGivenUp (sym (process-reported ctx ∙ report-given_up accepted row buildable valid))
          (record {
            rethrown = refl;
            others = loop-others;
            base = find-saved k (moved w.valid w.values w.now k unsuccessful) refl s.bases.bases;
          })

    report-refused :
        w.accepts_reason (w.message e) ≡ false
        → report w k.id e (some k.id) loop.1 ≡ (err invalid_value, loop.1)
    unfolding report fail
    report-refused refused = rw refused refl

    -- A re-embedding whose loop throws, as above, with a message that the value object refuses as a reason ends
    -- with that refusal instead, and changes no knowledge base, so that one that was REEMBEDDING stays so; every
    -- row outside the knowledge base and the new model is kept.
    pub process_reembed_stuck :
        (ctx : Option ℕ)
        → w.accepts_reason (w.message e) ≡ false
        → let out = process w (reembed_job k.id previous new) ctx s in
          (out.0 ≡ err invalid_value) × ((out.1).bases ≡ s.bases) × KeepsOthers out.1
    unfolding process
    process_reembed_stuck ctx refused =
        let run = process-reported ctx ∙ report-refused refused in
        (
          ap (λ r. r.0) run,
          ap (λ r. (r.1).bases) run ∙ loop-bases,
          subst (λ r. KeepsOthers r.1) (sym run) loop-others,
        )
