-- ===== src/Documents/Commands/Delete.antt =====
-- Deleting a document.
use shiori_api.Shared.{
  ℕ, ◌≡◌, refl, sym, ◌∙◌, subst, Bool, not, some, List, [], ◌∷◌, ◌++◌, ==_refl, ◌==◌, filter,
  filter_comm, filter-filter, filter-filter-none, arith,
}
use shiori_api.Tenancy.{Result, ok, scoped}
use shiori_api.Documents.Aggregate.{Document, Kit, document_deleted}
use shiori_api.Documents.Store.{Chunk, Store, document_columns, chunk_columns, loaded}
use shiori_api.Documents.Store.Lemmas.{IsRow, IsBuildable, has_id, assert_exists-row, filter-row}
use shiori_api.Documents.Commands.{execute_delete}

-- whether a chunk is of a document
abbrev pub is_of : ℕ → Chunk → Bool
is_of id c = c.document_id == id

module _ (kit : Kit) (now : ℕ) (d : Document) (buildable : IsBuildable kit d) where
  -- the store behind `execute_delete`
  abbrev pub after_delete : Store → Store
  after_delete s = record s {
    documents =
        filter (λ x. not (scoped document_columns d.knowledge_base_id (has_id d.id) x)) s.documents;
    chunks =
        filter (λ c. not (is_of d.id c))
          (filter (λ c. not (scoped chunk_columns d.knowledge_base_id (is_of d.id) c)) s.chunks);
    builder = loaded d;
    events = s.events ++ document_deleted d ∷ [];
  }

  pub execute_delete-row :
      (s : Store)
      → IsRow d s.documents
      → execute_delete kit now d.id (some d.knowledge_base_id) s ≡ (ok tt, after_delete s)
  unfolding execute_delete
  execute_delete-row s row =
      rw (assert_exists-row kit d s row buildable, filter-row d s.documents row) refl

  pub no_row_left :
      (ds : List Document)
      → IsRow d ds
      → filter
          (has_id d.id)
          (filter (λ x. not (scoped document_columns d.knowledge_base_id (has_id d.id) x)) ds)
        ≡ []
  no_row_left ds row =
      filter_comm (has_id d.id)
        (λ x. not (scoped document_columns d.knowledge_base_id (has_id d.id) x)) ds
      ∙ rw (row, ==_refl d.id, ==_refl d.knowledge_base_id) refl

  -- What a deletion leaves.
  pub record IsDeletedFrom (s : Store) (out : Result (Unit {0}) × Store) : Type 0 where
    pub done : out.0 ≡ ok tt
    pub no_row : filter (has_id d.id) (out.1).documents ≡ []
    pub no_chunk : filter (is_of d.id) (out.1).chunks ≡ []
    pub other_rows :
        filter (λ x. not (has_id d.id x)) (out.1).documents
        ≡ filter (λ x. not (has_id d.id x)) s.documents
    pub other_chunks :
        filter (λ c. not (is_of d.id c)) (out.1).chunks ≡ filter (λ c. not (is_of d.id c)) s.chunks
    pub jobs : (out.1).jobs ≡ s.jobs
    pub events : (out.1).events ≡ s.events ++ document_deleted d ∷ []

  -- DeleteDocument on a row of the knowledge base, that the builder takes, deletes the row and every chunk of the
  -- document, keeps the other documents and their chunks, leaves the queue alone, and
  -- publishes DocumentDeleted.
  pub execute_delete-IsDeletedFrom :
      (s : Store)
      → IsRow d s.documents
      → IsDeletedFrom s (execute_delete kit now d.id (some d.knowledge_base_id) s)
  execute_delete-IsDeletedFrom s row =
      subst (IsDeletedFrom s) (sym (execute_delete-row s row)) (record {
        done = refl;
        no_row = no_row_left s.documents row;
        no_chunk =
            filter-filter-none (is_of d.id) (λ c. not (is_of d.id c)) _ (λ c h. ground arith);
        other_rows = filter-filter (λ x. not (has_id d.id x)) _ s.documents (λ x h. ground arith);
        other_chunks =
            filter-filter (λ c. not (is_of d.id c)) _ _ (λ c h. h)
            ∙ filter-filter (λ c. not (is_of d.id c)) _ s.chunks (λ c h. ground arith);
        jobs = refl;
        events = refl;
      })
