-- ===== src/Embeddings/Jobs/Kept.antt =====
-- What embedding a document never touches, whether it succeeds or throws: the other stores, and the rows outside the
-- knowledge base and model that it embeds for.
use shiori_api.Shared.{
  ℕ, ◌≡◌, refl, sym, ap, ◌∙◌, subst, Bool, true, false, not, Option, some, List, [], ◌∷◌, Str,
  str_eq_refl, ◌==◌, ==_refl, arith, filter, map, map-All, length, All, All-map, Bool-cases, inl,
  inr,
}
use shiori_api.Tenancy.{Result, ok, err, IfOk, upsert, require}
use shiori_api.Tenancy.Binding.{if_given-IfOk}
use shiori_api.Tenancy.Isolation.{upsert-All, table-save}
use shiori_api.Documents.Store.{Chunk}
use shiori_api.Embeddings.World.{
  Vector, Embedding, VectorRow, World, M, Worker, ◌>>=◌, ◌>>◌, continue, lift, pure, draw, reading,
  ambient,
}
use shiori_api.Embeddings.Storage.{
  EmbeddingAggregate, EmbeddingBuilder, build, stamp, save_rows, insert, save_many, is_of,
  all_owned, table_for, to_vector_persistence,
}
use shiori_api.Embeddings.Storage.Building.{metadata-build}
use shiori_api.Embeddings.Jobs.{
  metadata_for, chunk_source, build_embeddings, embed_found, embed_document, embed_all,
  first_vector, other_vectors,
}

module _ (w : Worker) (kb : ℕ) (model : Str) where
  abbrev pub other : Embedding → Bool
  other e = not (is_of kb model e)

  -- No row outside has an identifier that the worker generates.
  abbrev pub AreApart : World → Type 0
  AreApart s = All (λ e. other e ≡ true → (g : ℕ) → (e.id == w.uuid g) ≡ false) s.embeddings

  pub record IsKept (s t : World) : Type 0 where
    pub documents : t.documents ≡ s.documents
    pub bases : t.bases ≡ s.bases
    pub rows : filter other t.embeddings ≡ filter other s.embeddings
    pub apart : AreApart t

  -- an action in the frame that keeps all this, and what it gives
  abbrev pub Keeps : {A : Type 0} → (A → Type 0) → M A → Type 0
  Keeps P m = (s : World) → AreApart s → IsKept s (m (some kb) s).1 × IfOk P (m (some kb) s).0

  abbrev Any : {A : Type 0} → A → Type 0
  Any a = Unit

  same : (s : World) → AreApart s → IsKept s s
  same s apart = record { documents = refl; bases = refl; rows = refl; apart = apart }

  trans : (s t u : World) → IsKept s t → IsKept t u → IsKept s u
  trans s t u h h' = record {
    documents = h'.documents ∙ h.documents;
    bases = h'.bases ∙ h.bases;
    rows = h'.rows ∙ h.rows;
    apart = h'.apart;
  }

  module _ {A B : Type 0} (P : A → Type 0) (Q : B → Type 0) where
    Keeps-continue :
        (r : Result A) (f : A → M B) (s t : World)
        → ((a : A) → P a → Keeps Q (f a))
        → IsKept s t
        → IfOk P r
        → IsKept s (continue r f (some kb) t).1 × IfOk Q (continue r f (some kb) t).0
    Keeps-continue (ok a) f s t hf h post =
        let (kept, given) = hf a post t h.apart in (trans s t (f a (some kb) t).1 h kept, given)
    Keeps-continue (err e) f s t hf h post = (h, tt)

    Keeps-bind :
        (m : M A) (f : A → M B) → Keeps P m → ((a : A) → P a → Keeps Q (f a)) → Keeps Q (m >>= f)
    Keeps-bind m f hm hf s apart =
        let (kept, post) = hm s apart in
        Keeps-continue (m (some kb) s).0 f s (m (some kb) s).1 hf kept post

  Keeps-pure : {A : Type 0} (P : A → Type 0) (a : A) → P a → Keeps P (pure a)
  Keeps-pure P a h s apart = (same s apart, h)

  Keeps-lift : {A : Type 0} (P : A → Type 0) (r : Result A) → IfOk P r → Keeps P (lift r)
  Keeps-lift P r h s apart = (same s apart, h)

  Keeps-reading : {A : Type 0} (f : Option ℕ → World → Result A) → Keeps Any (reading f)
  Keeps-reading f s apart = (same s apart, any (f (some kb) s))
    where
      any : {A : Type 0} (r : Result A) → IfOk Any r
      any (ok a) = tt
      any (err e) = tt

  abbrev IsDrawn : ℕ → Type 0
  IsDrawn id = (g : ℕ) × (id ≡ w.uuid g)

  Keeps-draw : Keeps IsDrawn (draw w)
  Keeps-draw s apart =
      (record { documents = refl; bases = refl; rows = refl; apart = apart }, (s.generated, refl))

  -- a row of the knowledge base and the model under an identifier that was drawn
  abbrev IsNew : Embedding → Type 0
  IsNew e = (is_of kb model e ≡ true) × IsDrawn e.id

  save_rows-kept :
      (es rows : List Embedding)
      → All IsNew es
      → All (λ e. other e ≡ true → (g : ℕ) → (e.id == w.uuid g) ≡ false) rows
      → (filter other (save_rows es rows) ≡ filter other rows)
        × All (λ e. other e ≡ true → (g : ℕ) → (e.id == w.uuid g) ≡ false) (save_rows es rows)
  unfolding save_rows
  save_rows-kept [] rows new apart = (refl, apart)
  save_rows-kept (e ∷ es) rows ((own, (g, drawn)), new) apart =
      let out = ap not own in
      let (kept, apart') = save_rows-kept es (upsert (λ x. x.id) e rows) new (
        upsert-All (λ x. x.id) (λ x. other x ≡ true → (n : ℕ) → (x.id == w.uuid n) ≡ false) e rows
          (λ h. let c = sym h ∙ out in ground arith) apart) in
      (
        kept
            ∙ table-save (λ x. x.id) other e rows out
                (All-map (λ x hx t. ap (λ i. x.id == i) drawn ∙ hx t g) rows apart),
        apart',
      )

  module _ (n : ℕ) (rows : List Embedding) (vectors : List VectorRow) (new : All IsNew rows) where
    Keeps-insert : Keeps Any (insert n rows vectors)
    unfolding insert
    Keeps-insert s apart =
        elim (Bool-cases (all_owned s.documents.documents s.documents.chunks rows)) [
          | inl e ↦
              let (kept, apart') = save_rows-kept rows s.embeddings new apart in
              rw e (record { documents = refl; bases = refl; rows = kept; apart = apart' }, tt)
          | inr e ↦ rw e (same s apart, tt)
        ]

  abbrev AreNew : List EmbeddingAggregate → Type 0
  AreNew es = All (λ (a : EmbeddingAggregate). IsNew (stamp kb a)) es

  Any-result : {A : Type 0} (r : Result A) → IfOk Any r
  Any-result (ok a) = tt
  Any-result (err e) = tt

  Keeps-ambient : Keeps (λ id. id ≡ kb) ambient
  unfolding require
  Keeps-ambient s apart = (same s apart, refl)

  Keeps-save_many :
      (es : List EmbeddingAggregate) (dimensions : ℕ)
      → AreNew es
      → Keeps Any (save_many es dimensions)
  unfolding save_many
  Keeps-save_many [] dimensions new = Keeps-pure Any tt tt
  Keeps-save_many (a ∷ rest) dimensions new =
      let es = a ∷ rest in
      let write = λ (n id : ℕ). insert n (map (stamp id) es) (map (to_vector_persistence n) es) in
      Keeps-bind Any Any (lift (table_for dimensions)) (λ n. ambient >>= write n)
        (Keeps-lift Any (table_for dimensions) (Any-result (table_for dimensions)))
        (λ n _.
          Keeps-bind (λ id. id ≡ kb) Any ambient (write n) Keeps-ambient
            (λ id is_kb. Keeps-insert n (map (stamp id) es) (map (to_vector_persistence n) es) (
              map-All IsNew (stamp id) es (
                subst (λ i. All (λ (x : EmbeddingAggregate). IsNew (stamp i x)) es) (sym is_kb)
                  new))))

  module _ (document_id dimensions : ℕ) where
    abbrev drafted : ℕ → Chunk → List Vector → EmbeddingBuilder
    drafted id c vectors = record {
      metadata = metadata_for w document_id kb model id c;
      embedding = first_vector vectors;
      dimensions = dimensions;
    }

    IsNew-built :
        (b : EmbeddingBuilder)
        → IsNew (record (b.metadata) { knowledge_base_id = kb })
        → IfOk (λ a. IsNew (stamp kb a)) (build w.kit b)
    IsNew-built b new =
        if_given-IfOk (λ a. IsNew (stamp kb a)) (build w.kit b)
          (λ a h.
            subst (λ (e : Embedding). IsNew (record e { knowledge_base_id = kb }))
              (sym (metadata-build w.kit b a h)) new)

    abbrev rest_of : List Chunk → List Vector → M (List EmbeddingAggregate)
    rest_of cs vectors =
        build_embeddings w document_id kb model dimensions cs (other_vectors vectors)

    abbrev with_first : List Chunk → List Vector → EmbeddingAggregate → M (List EmbeddingAggregate)
    with_first cs vectors a = rest_of cs vectors >>= λ rest. pure (a ∷ rest)

    Keeps-build_embeddings :
        (cs : List Chunk) (vectors : List Vector)
        → Keeps AreNew (build_embeddings w document_id kb model dimensions cs vectors)
    unfolding build_embeddings
    Keeps-build_embeddings [] vectors = Keeps-pure AreNew [] tt
    Keeps-build_embeddings (c ∷ cs) vectors =
        let built = λ (id : ℕ). build w.kit (drafted id c vectors) in
        Keeps-bind IsDrawn AreNew (draw w) (λ id. lift (built id) >>= with_first cs vectors)
          Keeps-draw
          (λ id drawn.
            Keeps-bind (λ a. IsNew (stamp kb a)) AreNew (lift (built id)) (with_first cs vectors)
              (Keeps-lift (λ a. IsNew (stamp kb a)) (built id)
                (IsNew-built (drafted id c vectors)
                  (rw (==_refl kb, str_eq_refl model) refl, drawn)))
              (λ a new.
                Keeps-bind AreNew AreNew (rest_of cs vectors) (λ rest. pure (a ∷ rest))
                  (Keeps-build_embeddings cs (other_vectors vectors))
                  (λ rest news. Keeps-pure AreNew (a ∷ rest) (new, news))))

    abbrev save_and_count : List EmbeddingAggregate → M ℕ
    save_and_count es = save_many es dimensions >> pure (length es)

    Keeps-embed_found :
        (cs : List Chunk) → Keeps Any (embed_found w document_id kb model dimensions cs)
    unfolding embed_found
    Keeps-embed_found [] = Keeps-pure {A = ℕ} Any 0 tt
    Keeps-embed_found (c ∷ cs) =
        let answer = w.vectors_of (map (λ (x : Chunk). x.text) (c ∷ cs)) model in
        let build_all = build_embeddings w document_id kb model dimensions (c ∷ cs) in
        Keeps-bind Any Any (lift answer) (λ vectors. build_all vectors >>= save_and_count)
          (Keeps-lift Any answer (Any-result answer))
          (λ vectors _.
            Keeps-bind AreNew Any (build_all vectors) save_and_count
              (Keeps-build_embeddings (c ∷ cs) vectors)
              (λ es new.
                Keeps-bind Any Any (save_many es dimensions) (λ _. pure (length es))
                  (Keeps-save_many es dimensions new) (λ _ _. Keeps-pure Any (length es) tt)))

    Keeps-embed_document : Keeps Any (embed_document w document_id kb model dimensions)
    unfolding embed_document chunk_source
    Keeps-embed_document =
        Keeps-bind Any Any (chunk_source w document_id)
          (embed_found w document_id kb model dimensions)
          (λ s apart. (same s apart, Any-result (chunk_source w document_id (some kb) s).0))
          (λ cs _. Keeps-embed_found cs)

  pub Keeps-embed_all :
      (dimensions : ℕ) (ids : List ℕ) → Keeps Any (embed_all w kb model dimensions ids)
  unfolding embed_all
  Keeps-embed_all dimensions [] = Keeps-pure Any tt tt
  Keeps-embed_all dimensions (id ∷ ids) =
      Keeps-bind Any Any (embed_document w id kb model dimensions)
        (λ _. embed_all w kb model dimensions ids) (Keeps-embed_document id dimensions)
        (λ _ _. Keeps-embed_all dimensions ids)
