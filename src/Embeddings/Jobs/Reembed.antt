-- ===== src/Embeddings/Jobs/Reembed.antt =====
-- A re-embedding that goes through: ReembedKnowledgeBaseProcessor.process
-- (src/contexts/embeddings/infrastructure/processors/reembed-knowledge-base.processor.ts).
use shiori_api.Shared.{
  ℕ, ◌+◌, ◌≡◌, refl, sym, ap, ◌∙◌, subst, true, some, List, [], ◌∷◌, ◌++◌, append-nil, append_assoc,
  Str, arith, map, length, length-append,
}
use shiori_api.Tenancy.{ok}
use shiori_api.Tenancy.Binding.{bound, bound-cases, ok_injective}
use shiori_api.Documents.Aggregate.{Document}
use shiori_api.Documents.Store.{Chunk}
use shiori_api.Embeddings.World.{Embedding, VectorRow, World, Worker}
use shiori_api.Embeddings.Storage.{
  EmbeddingAggregate, stamp, table_for, all_owned, to_vector_persistence,
}
use shiori_api.Embeddings.Storage.Index.{AreFresh, saved-IsFormed}
use shiori_api.Embeddings.Jobs.{embed_all}
use shiori_api.Embeddings.Jobs.Plan.{
  plan_document, plan_all, embedded, IsSavable, embed_document-plan, embedded_none,
}

map-append : {A B : Type 0} (f : A → B) (xs ys : List A) → map f (xs ++ ys) ≡ map f xs ++ map f ys
map-append f [] ys = refl
map-append f (x ∷ xs) ys = ap (λ l. f x ∷ l) (map-append f xs ys)

AreFresh-prefix : (rows xs ys : List Embedding) → AreFresh rows (xs ++ ys) → AreFresh rows xs
AreFresh-prefix rows [] ys h = tt
AreFresh-prefix rows (x ∷ xs) ys (hx, h) = (hx, AreFresh-prefix (rows ++ x ∷ []) xs ys h)

AreFresh-suffix :
    (rows xs ys : List Embedding) → AreFresh rows (xs ++ ys) → AreFresh (rows ++ xs) ys
AreFresh-suffix rows [] ys h = rw (append-nil rows) h
AreFresh-suffix rows (x ∷ xs) ys (hx, h) =
    rw (append_assoc rows (x ∷ []) xs) at (AreFresh-suffix (rows ++ x ∷ []) xs ys h)

all_owned-prefix :
    (ds : List Document) (cs : List Chunk) (xs ys : List Embedding)
    → all_owned ds cs (xs ++ ys) ≡ true
    → all_owned ds cs xs ≡ true
unfolding all_owned
all_owned-prefix ds cs [] ys h = refl
all_owned-prefix ds cs (x ∷ xs) ys h = ground (arith, all_owned-prefix ds cs xs ys)

all_owned-suffix :
    (ds : List Document) (cs : List Chunk) (xs ys : List Embedding)
    → all_owned ds cs (xs ++ ys) ≡ true
    → all_owned ds cs ys ≡ true
unfolding all_owned
all_owned-suffix ds cs [] ys h = h
all_owned-suffix ds cs (x ∷ xs) ys h = ground (arith, all_owned-suffix ds cs xs ys)

module _ (w : Worker) (kb : ℕ) (model : Str) (dimensions n : ℕ)
    (table : table_for dimensions ≡ ok n) where
  abbrev Savable : List EmbeddingAggregate → World → Type 0
  Savable es s = IsSavable w kb model dimensions es s

  abbrev after : List EmbeddingAggregate → World → World
  after es s = embedded w kb model dimensions n es s

  Savable-prefix :
      (xs ys : List EmbeddingAggregate) (s : World) → Savable (xs ++ ys) s → Savable xs s
  Savable-prefix xs ys s h = record {
    owned =
        all_owned-prefix s.documents.documents s.documents.chunks (map (stamp kb) xs)
          (map (stamp kb) ys) (rw (map-append (stamp kb) xs ys) at h.owned);
    formed = h.formed;
    fresh =
        AreFresh-prefix s.embeddings (map (stamp kb) xs) (map (stamp kb) ys)
          (rw (map-append (stamp kb) xs ys) at h.fresh);
  }

  Savable-suffix :
      (xs ys : List EmbeddingAggregate) (s : World) → Savable (xs ++ ys) s → Savable ys (after xs s)
  Savable-suffix xs ys s h =
      let here = Savable-prefix xs ys s h in
      record {
        owned =
            all_owned-suffix s.documents.documents s.documents.chunks (map (stamp kb) xs)
              (map (stamp kb) ys) (rw (map-append (stamp kb) xs ys) at h.owned);
        formed = saved-IsFormed kb n dimensions xs s table here.owned here.formed here.fresh;
        fresh =
            AreFresh-suffix s.embeddings (map (stamp kb) xs) (map (stamp kb) ys)
              (rw (map-append (stamp kb) xs ys) at h.fresh);
      }

  appended :
      {A B : Type 0} (f : A → B) (base : List B) (xs ys : List A)
      → (base ++ map f xs) ++ map f ys ≡ base ++ map f (xs ++ ys)
  appended f base xs ys =
      append_assoc base (map f xs) (map f ys) ∙ ap (λ l. base ++ l) (sym (map-append f xs ys))

  after-append :
      (xs ys : List EmbeddingAggregate) (s : World) → after ys (after xs s) ≡ after (xs ++ ys) s
  after-append xs ys s =
      let world = λ (rows : List Embedding) (vectors : List VectorRow) (g : ℕ). record s {
        embeddings = rows;
        vectors = vectors;
        generated = g;
      } in
      let rows = appended (stamp kb) s.embeddings xs ys in
      let vectors = appended (to_vector_persistence n) s.vectors xs ys in
      ap
        (λ r.
          world r
            ((s.vectors ++ map (to_vector_persistence n) xs) ++ map (to_vector_persistence n) ys)
            (s.generated + length xs + length ys))
        rows
      ∙ ap
          (λ v.
            world (s.embeddings ++ map (stamp kb) (xs ++ ys)) v
              (s.generated + length xs + length ys))
          vectors
      ∙ ap
          (λ g.
            world (s.embeddings ++ map (stamp kb) (xs ++ ys))
              (s.vectors ++ map (to_vector_persistence n) (xs ++ ys)) g)
          (omega (arith, length-append xs ys))

  pub embed_all-plan :
      (ids : List ℕ) (s : World) (es : List EmbeddingAggregate)
      → plan_all w kb model dimensions s.documents.chunks ids s.generated ≡ ok es
      → Savable es s
      → embed_all w kb model dimensions ids (some kb) s ≡ (ok tt, after es s)
  unfolding embed_all plan_all
  embed_all-plan [] s es h savable =
      ap (λ t. (ok tt, t)) (embedded_none w kb model dimensions n table s)
      ∙ ap (λ xs. (ok tt, after xs s)) (ok_injective [] es h)
  embed_all-plan (id ∷ ids) s es h savable =
      elim (bound-cases (plan_document w kb model dimensions s.documents.chunks id s.generated) _ es
        h) [
          | bound xs planned later ↦
              elim (bound-cases
                (plan_all w kb model dimensions s.documents.chunks ids (s.generated + length xs)) _
                es later) [
                  | bound ys planned' same ↦
                      let both =
                        subst (λ l. Savable l s) (sym (ok_injective (xs ++ ys) es same)) savable in
                      rw
                        (
                          embed_document-plan w kb model dimensions n table id s xs planned
                              (Savable-prefix xs ys s both),
                          embed_all-plan ids (after xs s) ys planned' (Savable-suffix xs ys s both),
                        )
                        (ap (λ t. (ok tt, t)) (after-append xs ys s)
                          ∙ ap (λ l. (ok tt, after l s)) (ok_injective (xs ++ ys) es same))
                ]
        ]
