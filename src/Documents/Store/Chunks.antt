-- ===== src/Documents/Store/Chunks.antt =====
-- The single reads and writes of ChunkTypeOrmWriteRepository and the page of DocumentTypeOrmWriteRepository
-- (src/contexts/documents/infrastructure/persistence/typeorm/repositories). What ChunkTextValueObject takes is a parameter.
use shiori_api.Shared.{
  ℕ, ◌≡◌, refl, ap, true, not, Bool, Option, none, some, List, [], ◌∷◌, Str, ◌==◌, ==_refl, arith,
  filter, All-filter, filter-filter, filter-filter-none, Bool-cases, inl, inr,
}
use shiori_api.Tenancy.{ok, table, tenant_find, tenant_delete_id, scoped, require, upsert}
use shiori_api.Documents.Store.{
  Chunk, Store, save_all, M, ◌>>=◌, ◌>>◌, pure, lift, ambient, reading, chunk_columns, with_chunks,
  replace_chunks, insert_chunks, all_owned,
}
use shiori_api.Documents.Store.Rows.{IsThere}
use shiori_api.Documents.Store.Ownership.{
  OwnsChunk, Respects, Any, Any-result, Respects-bind, Respects-lift,
}
use shiori_api.Documents.Store.Ownership.Tables.{MineChunk}
use shiori_api.Documents.Store.Ownership.Operations.{Respects-insert_chunks}
use shiori_api.Documents.Queries.Chunks.{chunk_to_domain, chunks_to_domain}

-- `delete`
unfoldable pub delete_chunk : ℕ → M (Unit {0})
unfolding with_chunks tenant_delete_id
delete_chunk id = with_chunks (λ ctx. tenant_delete_id chunk_columns (table (λ c. c.id)) ctx id)

module _ (accepts : Str → Bool) where
  first_to_domain : List Chunk → M (Option Chunk)
  first_to_domain [] = pure none
  first_to_domain (entity ∷ _) = do c ← lift (chunk_to_domain accepts entity); pure (some c)

  unfoldable pub find_chunk : ℕ → M (Option Chunk)
  unfolding first_to_domain
  find_chunk id = do
    rows ←
        reading
          (λ ctx s. tenant_find chunk_columns (table (λ c. c.id)) ctx (λ c. c.id == id) s.chunks)
    first_to_domain rows

  -- `findByCriteria`, with the page that the query builder gives
  unfoldable pub find_chunk_page : (List Chunk → List Chunk × ℕ) → M (List Chunk × ℕ)
  find_chunk_page page = do
    kb ← ambient
    (entities, total) ←
        reading (λ ctx s. ok (page (filter (λ c. c.knowledge_base_id == kb) s.chunks)))
    items ← lift (chunks_to_domain accepts entities)
    pure (items, total)

  -- `save`: the row that was saved is mapped back.
  unfoldable pub save_chunk : Chunk → M Chunk
  save_chunk c = do
    kb ← ambient
    insert_chunks (record c { knowledge_base_id = kb } ∷ [])
    lift (chunk_to_domain accepts (record c { knowledge_base_id = kb }))

module _ (owner : ℕ → ℕ) (kb : ℕ) where
  -- A deletion of a chunk in a frame leaves the rows of the other knowledge bases alone.
  pub Respects-delete_chunk : (id : ℕ) → Respects owner kb Any (delete_chunk id)
  unfolding delete_chunk with_chunks replace_chunks tenant_delete_id require
  Respects-delete_chunk id s h =
      let kept : Chunk → Bool = λ c. not (scoped chunk_columns kb (λ x. x.id == id) c) in
      (
        record {
          consistent = record {
            documents = h.documents;
            chunks = All-filter (OwnsChunk owner) kept s.chunks h.chunks;
            jobs = h.jobs;
            there = All-filter (IsThere s.documents) kept s.chunks h.there;
          };
          documents = refl;
          chunks =
              filter-filter (λ (c : Chunk). not (c.knowledge_base_id == kb)) kept s.chunks
                (λ c e. ground arith);
        },
        tt,
      )

  -- A chunk of the frame, saved, likewise.
  pub Respects-save_chunk :
      (accepts : Str → Bool) (c : Chunk)
      → MineChunk owner kb c
      → Respects owner kb Any (save_chunk accepts c)
  unfolding save_chunk require
  Respects-save_chunk accepts c mine =
      Respects-bind owner kb Any Any (insert_chunks (record c { knowledge_base_id = kb } ∷ []))
        (λ _. lift (chunk_to_domain accepts (record c { knowledge_base_id = kb })))
        (Respects-insert_chunks owner kb (record c { knowledge_base_id = kb } ∷ [])
          ((mine, refl), tt))
        (λ _ _.
          Respects-lift owner kb Any (chunk_to_domain accepts (record c { knowledge_base_id = kb }))
            (Any-result _))

module _ (accepts : Str → Bool) (kb : ℕ) where
  first-upsert :
      (s : Store) (c : Chunk) (rows : List Chunk)
      → c.knowledge_base_id ≡ kb
      → accepts c.text ≡ true
      → first_to_domain accepts
          (filter (scoped chunk_columns kb (λ x. x.id == c.id)) (upsert (λ x. x.id) c rows))
          (some kb)
          s
        ≡ (ok (some c), s)
  unfolding first_to_domain chunk_to_domain
  first-upsert s c [] own taken = rw (own, ==_refl kb, ==_refl c.id, taken) refl
  first-upsert s c (x ∷ rows) own taken = elim (Bool-cases (x.id == c.id)) [
    | inl e ↦ rw e (rw (own, ==_refl kb, ==_refl c.id, taken) refl)
    | inr e ↦ elim (Bool-cases (x.knowledge_base_id == kb)) [
      | inl here ↦ rw e (rw (here, e) (first-upsert s c rows own taken))
      | inr there ↦ rw e (rw (there, e) (first-upsert s c rows own taken))
    ]
  ]

  -- A chunk that was deleted is not found.
  pub find-delete_chunk :
      (id : ℕ) (s : Store) → ((delete_chunk id >> find_chunk accepts id) (some kb) s).0 ≡ ok none
  unfolding delete_chunk find_chunk with_chunks replace_chunks tenant_delete_id tenant_find require
      first_to_domain
  find-delete_chunk id s =
      rw
        (filter-filter-none (scoped chunk_columns kb (λ c. c.id == id))
          (λ c. not (scoped chunk_columns kb (λ x. x.id == id) c)) s.chunks (λ c e. rw e refl))
        refl

  -- A chunk that was saved, whose document is there and whose text the value object takes, is found.
  pub find-save_chunk :
      (c : Chunk) (s : Store)
      → all_owned s.documents (c ∷ []) ≡ true
      → accepts c.text ≡ true
      → ((save_chunk accepts c >> find_chunk accepts c.id) (some kb) s).0
        ≡ ok (some (record c { knowledge_base_id = kb }))
  unfolding save_chunk find_chunk insert_chunks save_all all_owned chunk_to_domain tenant_find
      require
  find-save_chunk c s there taken =
      let c' = record c { knowledge_base_id = kb } in
      rw (there, taken)
        (ap (λ r. r.0)
          (first-upsert (record s { chunks = upsert (λ x. x.id) c' s.chunks }) c' s.chunks refl
            taken))
