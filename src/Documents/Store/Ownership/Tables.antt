-- ===== src/Documents/Store/Ownership/Tables.antt =====
-- The tables under writes in the frame of a knowledge base.
use shiori_api.Shared.{
  ℕ, ◌≡◌, refl, sym, ◌∙◌, ap, subst, All-filter_and, Bool, true, false, not, List, [], ◌∷◌, ◌==◌,
  ==_iff, arith, filter, All, All-map, filter-holds, Bool-cases, inl, inr,
}
use shiori_api.Tenancy.{upsert, scoped}
use shiori_api.Tenancy.Isolation.{table-save, upsert-All}
use shiori_api.Documents.Aggregate.{Document}
use shiori_api.Documents.Store.{Chunk, document_columns, save_all, without_chunks_of}
use shiori_api.Documents.Store.Rows.{
  IsThere, is_there-filter, filter-filter_All, without_chunks_of-All,
}
use shiori_api.Documents.Store.Ownership.{OwnsDocument, OwnsChunk, other_documents, other_chunks}

module _ (owner : ℕ → ℕ) (kb : ℕ) where
  -- chunks that the frame may write
  abbrev pub MineChunk : Chunk → Type 0
  MineChunk c = (owner c.id ≡ kb) × (owner c.document_id ≡ kb)

  documents_apart :
      (d x : Document)
      → owner d.id ≡ kb
      → OwnsDocument owner x
      → not (x.knowledge_base_id == kb) ≡ true
      → (x.id == d.id) ≡ false
  documents_apart d x own own_x h = elim (Bool-cases (x.id == d.id)) [
    | inl e ↦
        absurd (let same = sym own_x ∙ ap owner ((==_iff x.id d.id).0 e) ∙ own in ground arith)
    | inr e ↦ e
  ]

  pub upsert-other_documents :
      (d : Document) (ds : List Document)
      → owner d.id ≡ kb
      → All (OwnsDocument owner) ds
      → other_documents kb (upsert (λ x. x.id) (record d { knowledge_base_id = kb }) ds)
        ≡ other_documents kb ds
  upsert-other_documents d ds own h =
      table-save (λ x. x.id) (λ x. not (x.knowledge_base_id == kb))
        (record d { knowledge_base_id = kb }) ds (ground arith)
        (All-map (λ x own_x. documents_apart d x own own_x) ds h)

  chunks_apart :
      (c x : Chunk)
      → MineChunk c
      → OwnsChunk owner x
      → not (x.knowledge_base_id == kb) ≡ true
      → (x.id == c.id) ≡ false
  chunks_apart c x own own_x h = elim (Bool-cases (x.id == c.id)) [
    | inl e ↦
        absurd (let same = sym own_x.0 ∙ ap owner ((==_iff x.id c.id).0 e) ∙ own.0 in ground arith)
    | inr e ↦ e
  ]

  pub save_all-other_chunks :
      (cs rows : List Chunk)
      → All (λ c. MineChunk c × (c.knowledge_base_id ≡ kb)) cs
      → All (OwnsChunk owner) rows
      → other_chunks kb (save_all cs rows) ≡ other_chunks kb rows
  unfolding save_all
  save_all-other_chunks [] rows h r = refl
  save_all-other_chunks (c ∷ cs) rows ((own, here), h) r =
      save_all-other_chunks cs (upsert (λ x. x.id) c rows) h
        (upsert-All (λ x. x.id) (OwnsChunk owner) c rows (rw here own) r)
      ∙ table-save (λ x. x.id) (λ x. not (x.knowledge_base_id == kb)) c rows
          (rw here (ground arith)) (All-map (λ x own_x. chunks_apart c x own own_x) rows r)

  -- the cascade of documents of the frame
  pub without_chunks_of-other_chunks :
      (ds : List Document) (cs : List Chunk)
      → All (λ d. owner d.id ≡ kb) ds
      → All (OwnsChunk owner) cs
      → other_chunks kb (without_chunks_of ds cs) ≡ other_chunks kb cs
  unfolding without_chunks_of
  without_chunks_of-other_chunks [] cs h r = refl
  without_chunks_of-other_chunks (d ∷ ds) cs (own, h) r =
      filter-filter_All (λ (x : Chunk). not (x.knowledge_base_id == kb))
        (λ (x : Chunk). not (x.document_id == d.id)) (without_chunks_of ds cs)
        (All-map (λ x own_x. kept d x own own_x) (without_chunks_of ds cs)
          (without_chunks_of-All (OwnsChunk owner) ds cs r))
      ∙ without_chunks_of-other_chunks ds cs h r
    where
      kept :
          (d : Document) (x : Chunk)
          → owner d.id ≡ kb
          → OwnsChunk owner x
          → not (x.knowledge_base_id == kb) ≡ true
          → not (x.document_id == d.id) ≡ true
      kept d x own own_x h = elim (Bool-cases (x.document_id == d.id)) [
        | inl e ↦ absurd (
            let same = sym own_x.1 ∙ ap owner ((==_iff x.document_id d.id).0 e) ∙ own in
            ground arith)
        | inr e ↦ rw e refl
      ]

-- A deletion of the documents with an identifier, with its cascade, keeps the foreign key.
module _ (id kb : ℕ) where
  abbrev pub is_gone : Document → Bool
  is_gone = scoped document_columns kb (λ d. d.id == id)

  filter-none_left :
      (p : Document → Bool) (ds : List Document)
      → filter p ds ≡ []
      → filter (λ x. not (p x)) ds ≡ ds
  filter-none_left p [] e = refl
  filter-none_left p (x ∷ ds) e = ground (arith, filter-none_left p ds)

  pub without_chunks_of-IsThere :
      (gone ds : List Document) (cs : List Chunk)
      → filter is_gone ds ≡ gone
      → All (IsThere ds) cs
      → All (IsThere (filter (λ d. not (is_gone d)) ds)) (without_chunks_of gone cs)
  unfolding without_chunks_of
  without_chunks_of-IsThere [] ds cs e h =
      subst (λ rows. All (IsThere rows) cs) (sym (filter-none_left is_gone ds e)) h
  without_chunks_of-IsThere (d ∷ gone) ds cs e h =
      All-filter_and {P = IsThere ds} {Q = IsThere (filter (λ x. not (is_gone x)) ds)}
        (λ (c : Chunk). not (c.document_id == d.id)) (stays ds d (d_gone ds d gone e))
        (without_chunks_of gone cs) (without_chunks_of-All (IsThere ds) gone cs h)
    where
      d_gone :
          (ds : List Document) (d : Document) (gone : List Document)
          → filter is_gone ds ≡ d ∷ gone
          → d.id ≡ id
      d_gone ds d gone e =
          let holds = subst (All (λ x. is_gone x ≡ true)) e (filter-holds is_gone ds) in
          ground (arith, holds.0)

      stays :
          (ds : List Document) (d : Document)
          → d.id ≡ id
          → (c : Chunk) → not (c.document_id == d.id) ≡ true
          → IsThere ds c
          → IsThere (filter (λ x. not (is_gone x)) ds) c
      stays ds d same c h there =
          is_there-filter c.document_id (λ x. not (is_gone x)) ds (λ x e. ground arith) there
