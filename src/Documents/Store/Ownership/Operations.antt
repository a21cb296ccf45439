-- ===== src/Documents/Store/Ownership/Operations.antt =====
-- The repositories and the queue in the frame of a knowledge base.
use shiori_api.Shared.{
  ℕ, ◌≡◌, refl, sym, ◌∙◌, ap, All-filter_and, Bool, not, Option, none, some, List, [], ◌∷◌, ◌==◌,
  arith, filter, All, All-append, All-filter, All-map, filter-filter, Bool-cases, inl, inr,
}
use shiori_api.Exceptions.{document_not_found}
use shiori_api.Tenancy.{
  Result, ok, err, IfOk, scoped, require, tenant_find, tenant_save, tenant_delete, tenant_delete_id,
}
use shiori_api.Tenancy.Isolation.{upsert-All}
use shiori_api.Documents.Aggregate.{Document, Event, Kit}
use shiori_api.Documents.Store.{
  pure, DocumentBuilder, Chunk, loaded, build, to_domain, to_domain_first, find_document,
  or_not_found, assert_exists, save_document, delete_document, delete_chunks, save_chunks,
  insert_chunks, stamp_chunks, publish, enqueue_chunking, with_documents, with_chunks,
  replace_documents, replace_chunks, document_columns, chunk_columns, all_owned,
}
use shiori_api.Documents.Store.Rows.{
  IsThere, is_there-upsert, all_owned-IsThere, save_all-All, without_chunks_of-All,
}
use shiori_api.Documents.Store.Ownership.{
  OwnsDocument, OwnsChunk, OwnsJob, IsLeft-refl, Respects, Any, Any-result, Respects-bind,
  Respects-lift, Respects-pure,
}
use shiori_api.Documents.Store.Ownership.Tables.{
  MineChunk, upsert-other_documents, save_all-other_chunks, without_chunks_of-other_chunks, is_gone,
  without_chunks_of-IsThere,
}

module _ (kit : Kit) where
  abbrev pub HasKeysOf : DocumentBuilder → Document → Type 0
  HasKeysOf b d = (d.id ≡ b.id) × (d.knowledge_base_id ≡ b.knowledge_base_id)

  pub build-HasKeysOf : (b : DocumentBuilder) → IfOk (HasKeysOf b) (build kit b)
  unfolding build
  build-HasKeysOf b = ground arith

module _ (owner : ℕ → ℕ) (kb : ℕ) where
  -- a document of the frame
  abbrev pub Mine : Document → Type 0
  Mine d = (owner d.id ≡ kb) × (d.knowledge_base_id ≡ kb)

  IfOk-Mine :
      (b : DocumentBuilder) (r : Result Document)
      → owner b.id ≡ kb
      → b.knowledge_base_id ≡ kb
      → IfOk (λ d. (d.id ≡ b.id) × (d.knowledge_base_id ≡ b.knowledge_base_id)) r
      → IfOk Mine r
  IfOk-Mine b (ok d) own here (same_id, same_kb) = (ap owner same_id ∙ own, same_kb ∙ here)
  IfOk-Mine b (err e) own here h = tt

  pub build-Mine :
      (kit : Kit) (b : DocumentBuilder)
      → owner b.id ≡ kb
      → b.knowledge_base_id ≡ kb
      → IfOk Mine (build kit b)
  build-Mine kit b own here = IfOk-Mine b (build kit b) own here (build-HasKeysOf kit b)

  pub Respects-to_domain :
      (kit : Kit) (d : Document) → Mine d → Respects owner kb Mine (to_domain kit d)
  unfolding to_domain
  Respects-to_domain kit d (own, here) s h = (
    record {
      consistent = record {
        documents = h.documents;
        chunks = h.chunks;
        jobs = h.jobs;
        there = h.there;
      };
      documents = refl;
      chunks = refl;
    },
    build-Mine kit (loaded d) own here,
  )

  abbrev pub FoundMine : Option Document → Type 0
  FoundMine none = Unit
  FoundMine (some d) = Mine d

  Respects-to_domain_first :
      (kit : Kit) (ds : List Document)
      → All Mine ds
      → Respects owner kb FoundMine (to_domain_first kit ds)
  unfolding to_domain_first
  Respects-to_domain_first kit [] h = Respects-pure owner kb FoundMine none tt
  Respects-to_domain_first kit (d ∷ ds) (mine, h) =
      Respects-bind owner kb Mine FoundMine (to_domain kit d) (λ d'. pure (some d'))
        (Respects-to_domain kit d mine) (λ d' m. Respects-pure owner kb FoundMine (some d') m)

  scoped-Mine :
      (p : Document → Bool) (ds : List Document)
      → All (OwnsDocument owner) ds
      → All Mine (filter (scoped document_columns kb p) ds)
  scoped-Mine p ds h =
      All-filter_and {P = OwnsDocument owner} {Q = Mine} (scoped document_columns kb p)
        (λ d e own. ground (arith, own)) ds h

  pub Respects-find_document :
      (kit : Kit) (id : ℕ) → Respects owner kb FoundMine (find_document kit id)
  unfolding find_document tenant_find require
  Respects-find_document kit id s h =
      Respects-to_domain_first kit
        (filter (scoped document_columns kb (λ d. d.id == id)) s.documents)
        (scoped-Mine (λ d. d.id == id) s.documents h.documents) s h

  Respects-or_not_found :
      (kit : Kit) (id : ℕ) (found : Option Document)
      → FoundMine found
      → Respects owner kb Mine (or_not_found kit id found)
  unfolding or_not_found
  Respects-or_not_found kit id none h = Respects-lift owner kb Mine (err (document_not_found id)) tt
  Respects-or_not_found kit id (some d) h = Respects-pure owner kb Mine d h

  pub Respects-assert_exists : (kit : Kit) (id : ℕ) → Respects owner kb Mine (assert_exists kit id)
  unfolding assert_exists
  Respects-assert_exists kit id =
      Respects-bind owner kb FoundMine Mine (find_document kit id) (or_not_found kit id)
        (Respects-find_document kit id) (Respects-or_not_found kit id)

  -- `save` of a document that the frame may write
  pub Respects-save_document :
      (kit : Kit) (d : Document) → owner d.id ≡ kb → Respects owner kb Mine (save_document kit d)
  unfolding save_document with_documents replace_documents tenant_save require to_domain
  Respects-save_document kit d own s h = (
    record {
      consistent = record {
        documents =
            upsert-All (λ x. x.id) (OwnsDocument owner) (record d { knowledge_base_id = kb })
              s.documents own h.documents;
        chunks = h.chunks;
        jobs = h.jobs;
        there =
            All-map
              (λ c. is_there-upsert c.document_id (record d { knowledge_base_id = kb }) s.documents)
              s.chunks h.there;
      };
      documents = upsert-other_documents owner kb d s.documents own h.documents;
      chunks = refl;
    },
    build-Mine kit (loaded (record d { knowledge_base_id = kb })) own refl,
  )

  -- `delete` of the chunks of a document, and of the document with its cascade
  pub Respects-delete_chunks : (id : ℕ) → Respects owner kb Any (delete_chunks id)
  unfolding delete_chunks with_chunks replace_chunks tenant_delete require
  Respects-delete_chunks id s h =
      let gone : Chunk → Bool = scoped chunk_columns kb (λ c. c.document_id == id) in
      (
        record {
          consistent = record {
            documents = h.documents;
            chunks = All-filter (OwnsChunk owner) (λ c. not (gone c)) s.chunks h.chunks;
            jobs = h.jobs;
            there = All-filter (IsThere s.documents) (λ c. not (gone c)) s.chunks h.there;
          };
          documents = refl;
          chunks =
              filter-filter (λ (c : Chunk). not (c.knowledge_base_id == kb)) (λ c. not (gone c))
                s.chunks (λ c e. ground arith);
        },
        tt,
      )

  gone-Owned :
      (id : ℕ) (ds : List Document)
      → All (OwnsDocument owner) ds
      → All (λ d. owner d.id ≡ kb) (filter (is_gone id kb) ds)
  gone-Owned id ds h =
      All-filter_and {P = OwnsDocument owner} {Q = λ d. owner d.id ≡ kb} (is_gone id kb)
        (λ d e own. ground (arith, own)) ds h

  pub Respects-delete_document : (id : ℕ) → Respects owner kb Any (delete_document id)
  unfolding delete_document with_documents replace_documents with_chunks replace_chunks tenant_find
      tenant_delete_id tenant_delete require
  Respects-delete_document id s h =
      let gone : List Document = filter (is_gone id kb) s.documents in
      (
        record {
          consistent = record {
            documents =
                All-filter (OwnsDocument owner) (λ d. not (is_gone id kb d)) s.documents
                  h.documents;
            chunks = without_chunks_of-All (OwnsChunk owner) gone s.chunks h.chunks;
            jobs = h.jobs;
            there = without_chunks_of-IsThere id kb gone s.documents s.chunks refl h.there;
          };
          documents =
              filter-filter (λ (d : Document). not (d.knowledge_base_id == kb))
                (λ d. not (is_gone id kb d)) s.documents (λ d e. ground arith);
          chunks =
              without_chunks_of-other_chunks owner kb gone s.chunks
                (gone-Owned id s.documents h.documents) h.chunks;
        },
        tt,
      )

  stamp-Mine :
      (cs : List Chunk)
      → All (MineChunk owner kb) cs
      → All (λ c. MineChunk owner kb c × (c.knowledge_base_id ≡ kb)) (stamp_chunks kb cs)
  unfolding stamp_chunks
  stamp-Mine [] h = tt
  stamp-Mine (c ∷ cs) (own, h) = ((own, refl), stamp-Mine cs h)

  -- chunks in one insert, under the foreign key
  pub Respects-insert_chunks :
      (cs : List Chunk)
      → All (λ c. MineChunk owner kb c × (c.knowledge_base_id ≡ kb)) cs
      → Respects owner kb Any (insert_chunks cs)
  unfolding insert_chunks
  Respects-insert_chunks cs own s h = elim (Bool-cases (all_owned s.documents cs)) [
    | inl e ↦ rw e (
      record {
        consistent = record {
          documents = h.documents;
          chunks =
              save_all-All (OwnsChunk owner) cs s.chunks
                (All-map (λ c m. (m.0.0 ∙ sym m.1, m.0.1 ∙ sym m.1)) cs own) h.chunks;
          jobs = h.jobs;
          there =
              save_all-All (IsThere s.documents) cs s.chunks (all_owned-IsThere s.documents cs e)
                h.there;
        };
        documents = refl;
        chunks = save_all-other_chunks owner kb cs s.chunks own h.chunks;
      },
      tt,
    )
    | inr e ↦ rw e (IsLeft-refl owner kb h, tt)
  ]

  pub Respects-save_chunks :
      (cs : List Chunk) → All (MineChunk owner kb) cs → Respects owner kb Any (save_chunks cs)
  unfolding save_chunks require
  Respects-save_chunks [] h = Respects-pure owner kb Any tt tt
  Respects-save_chunks (c ∷ cs) h =
      Respects-insert_chunks (stamp_chunks kb (c ∷ cs)) (stamp-Mine (c ∷ cs) h)

  -- the queue and the event bus
  pub Respects-enqueue_chunking :
      (id kb' : ℕ) → owner id ≡ kb' → Respects owner kb Any (enqueue_chunking id kb')
  unfolding enqueue_chunking
  Respects-enqueue_chunking id kb' own s h = (
    record {
      consistent = record {
        documents = h.documents;
        chunks = h.chunks;
        jobs = All-append (OwnsJob owner) s.jobs _ h.jobs (own, tt);
        there = h.there;
      };
      documents = refl;
      chunks = refl;
    },
    tt,
  )

  pub Respects-publish : (es : List Event) → Respects owner kb Any (publish es)
  unfolding publish
  Respects-publish es s h = (
    record {
      consistent = record {
        documents = h.documents;
        chunks = h.chunks;
        jobs = h.jobs;
        there = h.there;
      };
      documents = refl;
      chunks = refl;
    },
    tt,
  )

  -- the mapper on any row
  pub Respects-map : (kit : Kit) (d : Document) → Respects owner kb Any (to_domain kit d)
  unfolding to_domain
  Respects-map kit d s h = (
    record {
      consistent = record {
        documents = h.documents;
        chunks = h.chunks;
        jobs = h.jobs;
        there = h.there;
      };
      documents = refl;
      chunks = refl;
    },
    Any-result (build kit (loaded d)),
  )
