-- ===== src/Documents/Commands/Frame.antt =====
-- The command handlers respect the owners of identifiers (Documents.Store.Ownership).
use shiori_api.Shared.{
  ℕ, ◌≡◌, refl, sym, ◌∙◌, ap, Bool, Option, none, some, List, [], ◌∷◌, Str, ltb, length, Bool-cases,
  inl, inr, zero, suc, ◌==◌, if◌then◌else◌,
}
use shiori_api.Tenancy.{Result, ok, err, IfOk, require}
use shiori_api.Documents.Aggregate.{Document, Kit, Change, update, request_rechunk, create, delete}
use shiori_api.Documents.Aggregate.Lifecycle.{IsMoved, updates, rechunks, apply, apply-IsMoved}
use shiori_api.Documents.Store.{
  M, ◌>>=◌, ◌>>◌, pure, lift, to_domain, assert_exists, save_document, delete_document,
  delete_chunks, enqueue_chunking, publish,
}
use shiori_api.Documents.Store.Ownership.{
  IsLeft-refl, Respects, Any, Respects-bind, Respects-lift, Respects-pure,
}
use shiori_api.Documents.Store.Ownership.Operations.{
  Mine, build-Mine, Respects-assert_exists, Respects-save_document, Respects-delete_chunks,
  Respects-delete_document, Respects-enqueue_chunking, Respects-publish, Respects-map,
}
use shiori_api.Documents.Commands.{
  CreateDocumentCommand, UpdateDocumentCommand, CreateDocumentResult, when_defined,
  assert_content_not_too_large, build_new, with_command, execute_create, execute_update,
  execute_rechunk, execute_delete, fetch_next_batch, to_domain_all, delete_batch, delete_loop,
  is_empty, delete_batch_size,
}

module _ (owner : ℕ → ℕ) (kb : ℕ) where
  -- a step that gives nothing, and the rest
  pub Respects-then :
      {A B : Type 0} (Q : B → Type 0) (m : M A) (f : M B)
      → Respects owner kb Any m
      → Respects owner kb Q f
      → Respects owner kb Q (m >> f)
  Respects-then Q m f hm hf = Respects-bind owner kb Any Q m (λ _. f) hm (λ _ _. hf)

  -- a change of a document of the frame
  abbrev pub MineChange : Change → Type 0
  MineChange change = Mine owner kb change.0

  pub moved-MineChange :
      (d : Document) (r : Result Change)
      → Mine owner kb d
      → IfOk (λ c. IsMoved d c.0) r
      → IfOk MineChange r
  moved-MineChange d (ok c) (own, here) h = (ap owner h.same_id ∙ own, h.same_knowledge_base ∙ here)
  moved-MineChange d (err e) mine h = tt

  pub Respects-save_publish :
      {B : Type 0} (Q : B → Type 0) (kit : Kit) (change : Change) (rest : M B)
      → MineChange change
      → Respects owner kb Q rest
      → Respects owner kb Q (save_document kit change.0 >>= λ _. (publish change.1 >> rest))
  Respects-save_publish Q kit (d, es) rest mine h =
      Respects-bind owner kb (Mine owner kb) Q (save_document kit d) (λ _. publish es >> rest)
        (Respects-save_document owner kb kit d mine.0)
        (λ _ _. Respects-then Q (publish es) rest (Respects-publish owner kb es) h)

  module _ (kit : Kit) (now : ℕ) where
    Respects-assert_content :
        (max : ℕ) (content : Str) → Respects owner kb Any (assert_content_not_too_large max content)
    unfolding assert_content_not_too_large
    Respects-assert_content max content s h = elim (Bool-cases (ltb max (length content))) [
      | inl e ↦ rw e (IsLeft-refl owner kb h, tt)
      | inr e ↦ rw e (IsLeft-refl owner kb h, tt)
    ]

    Respects-when_defined :
        (value : Option Str) (body : Str → M (Unit {0}))
        → ((v : Str) → Respects owner kb Any (body v))
        → Respects owner kb Any (when_defined kit now value body)
    unfolding when_defined
    Respects-when_defined none body h = Respects-pure owner kb Any tt tt
    Respects-when_defined (some v) body h = h v

    -- a mutator of a document that the frame has found, and what follows on the change
    Respects-mutate :
        (r : Document → Result Change) (rest : Change → M (Unit {0})) (id : ℕ)
        → ((d : Document) → IfOk (λ c. IsMoved d c.0) (r d))
        → ((c : Change) → MineChange c → Respects owner kb Any (rest c))
        → Respects owner kb Any (assert_exists kit id >>= λ d. (lift (r d) >>= rest))
    Respects-mutate r rest id moved h =
        Respects-bind owner kb (Mine owner kb) Any (assert_exists kit id) (λ d. lift (r d) >>= rest)
          (Respects-assert_exists owner kb kit id)
          (λ d mine.
            Respects-bind owner kb MineChange Any (lift (r d)) rest
              (Respects-lift owner kb MineChange (r d) (moved-MineChange d (r d) mine (moved d))) h)

    pub Respects-execute_update :
        (max : ℕ) (command : UpdateDocumentCommand)
        → Respects owner kb Any (execute_update kit now max command)
    unfolding execute_update apply
    Respects-execute_update max command =
        let requeue : Document → M (Unit {0}) = λ d.
          when_defined kit now command.content (λ _. enqueue_chunking d.id d.knowledge_base_id) in
        let rest : Change → M (Unit {0}) = λ c.
          when_defined kit now command.content (λ _. delete_chunks c.0.id)
          >> (save_document kit c.0 >>= λ _. (publish c.1 >> requeue c.0)) in
        Respects-then Any (when_defined kit now command.content (assert_content_not_too_large max))
          (assert_exists kit command.id >>= λ d.
            (lift (update kit now command.title command.content d) >>= rest))
          (Respects-when_defined command.content (assert_content_not_too_large max)
            (Respects-assert_content max))
          (Respects-mutate (λ d. update kit now command.title command.content d) rest command.id
            (λ d. apply-IsMoved kit now (updates command.title command.content) d)
            (λ c mine.
              Respects-then Any (when_defined kit now command.content (λ _. delete_chunks c.0.id))
                (save_document kit c.0 >>= λ _. (publish c.1 >> requeue c.0))
                (Respects-when_defined command.content (λ _. delete_chunks c.0.id)
                  (λ _. Respects-delete_chunks owner kb c.0.id))
                (Respects-save_publish Any kit c (requeue c.0) mine (
                  Respects-when_defined command.content
                    (λ _. enqueue_chunking c.0.id c.0.knowledge_base_id)
                    (λ _.
                      Respects-enqueue_chunking owner kb c.0.id c.0.knowledge_base_id
                        (mine.0 ∙ sym mine.1))))))

    pub Respects-execute_rechunk : (id : ℕ) → Respects owner kb Any (execute_rechunk kit now id)
    unfolding execute_rechunk apply
    Respects-execute_rechunk id =
        let requeue : Document → M (Unit {0}) = λ d. enqueue_chunking d.id d.knowledge_base_id in
        let rest : Change → M (Unit {0}) = λ c.
          delete_chunks c.0.id >> (save_document kit c.0 >>= λ _. (publish c.1 >> requeue c.0)) in
        Respects-mutate (λ d. request_rechunk kit now d) rest id
          (λ d. apply-IsMoved kit now rechunks d)
          (λ c mine.
            Respects-then Any (delete_chunks c.0.id)
              (save_document kit c.0 >>= λ _. (publish c.1 >> requeue c.0))
              (Respects-delete_chunks owner kb c.0.id)
              (Respects-save_publish Any kit c (requeue c.0) mine (
                Respects-enqueue_chunking owner kb c.0.id c.0.knowledge_base_id
                  (mine.0 ∙ sym mine.1))))

    pub Respects-execute_delete : (id : ℕ) → Respects owner kb Any (execute_delete kit now id)
    unfolding execute_delete
    Respects-execute_delete id =
        let rest : Document → M (Unit {0}) =
          λ d. delete_chunks d.id >> (delete_document d.id >> publish ((delete d).1)) in
        Respects-bind owner kb (Mine owner kb) Any (assert_exists kit id) rest
          (Respects-assert_exists owner kb kit id)
          (λ d mine.
            Respects-then Any (delete_chunks d.id) (delete_document d.id >> publish ((delete d).1))
              (Respects-delete_chunks owner kb d.id)
              (Respects-then Any (delete_document d.id) (publish ((delete d).1))
                (Respects-delete_document owner kb d.id)
                (Respects-publish owner kb ((delete d).1))))

    Respects-build_new :
        (id : ℕ) (command : CreateDocumentCommand)
        → owner id ≡ kb
        → command.knowledge_base_id ≡ kb
        → Respects owner kb (Mine owner kb) (build_new kit now id command)
    unfolding build_new
    Respects-build_new id command own here s h = (
      record {
        consistent = record {
          documents = h.documents;
          chunks = h.chunks;
          jobs = h.jobs;
          there = h.there;
        };
        documents = refl;
        chunks = refl;
      },
      build-Mine owner kb kit (with_command kit now id command s.builder) own here,
    )

    pub Respects-execute_create :
        (max id : ℕ) (command : CreateDocumentCommand)
        → owner id ≡ kb
        → command.knowledge_base_id ≡ kb
        → Respects owner kb Any (execute_create kit now max id command)
    unfolding execute_create create
    Respects-execute_create max id command own here =
        let result : Document → CreateDocumentResult =
          λ d. record { id = d.id; status = d.status } in
        let queue : Document → M CreateDocumentResult =
          λ d. enqueue_chunking d.id d.knowledge_base_id >> pure (result d) in
        let rest : Document → M CreateDocumentResult =
          λ d. save_document kit d >>= λ _. (publish ((create d).1) >> queue d) in
        Respects-then Any (assert_content_not_too_large max command.content)
          (build_new kit now id command >>= rest) (Respects-assert_content max command.content)
          (Respects-bind owner kb (Mine owner kb) Any (build_new kit now id command) rest
            (Respects-build_new id command own here)
            (λ d mine. Respects-save_publish Any kit (create d) (queue d) mine (
              Respects-then Any (enqueue_chunking d.id d.knowledge_base_id) (pure (result d))
                (Respects-enqueue_chunking owner kb d.id d.knowledge_base_id (mine.0 ∙ sym mine.1))
                (Respects-pure owner kb Any (result d) tt))))

  -- the loop of the listener on a knowledge base's deletion
  module _ (kit : Kit) (page_of : ℕ → (Document → Bool) → List Document → List Document) where
    Respects-delete_batch :
        (ds : List Document) → Respects owner kb Any (delete_batch kit page_of ds)
    unfolding delete_batch
    Respects-delete_batch [] = Respects-pure owner kb Any tt tt
    Respects-delete_batch (d ∷ ds) =
        Respects-then Any (delete_chunks d.id) (delete_document d.id >> delete_batch kit page_of ds)
          (Respects-delete_chunks owner kb d.id)
          (Respects-then Any (delete_document d.id) (delete_batch kit page_of ds)
            (Respects-delete_document owner kb d.id) (Respects-delete_batch ds))

    Respects-to_domain_all :
        (ds : List Document) → Respects owner kb Any (to_domain_all kit page_of ds)
    unfolding to_domain_all
    Respects-to_domain_all [] = Respects-pure owner kb {A = List Document} Any [] tt
    Respects-to_domain_all (d ∷ ds) =
        let rest : Document → M (List Document) =
          λ x. to_domain_all kit page_of ds >>= λ xs. pure (x ∷ xs) in
        Respects-bind owner kb Any Any (to_domain kit d) rest (Respects-map owner kb kit d) (λ x _.
          Respects-bind owner kb Any Any (to_domain_all kit page_of ds) (λ xs. pure (x ∷ xs))
            (Respects-to_domain_all ds) (λ xs _. Respects-pure owner kb Any (x ∷ xs) tt))

    Respects-fetch_next_batch : Respects owner kb Any (fetch_next_batch kit page_of)
    unfolding fetch_next_batch require
    Respects-fetch_next_batch s h =
        Respects-to_domain_all
          (page_of delete_batch_size (λ d. d.knowledge_base_id == kb) s.documents) s h

    Respects-unless_empty :
        (page : List Document) (rest : M (Option (Unit {0})))
        → Respects owner kb Any rest
        → Respects owner kb Any (if is_empty kit page_of page then pure (some tt) else rest)
    Respects-unless_empty [] rest h = Respects-pure owner kb Any (some tt) tt
    Respects-unless_empty (d ∷ ds) rest h = h

    pub Respects-delete_loop : (fuel : ℕ) → Respects owner kb Any (delete_loop kit page_of fuel)
    unfolding delete_loop
    Respects-delete_loop zero = Respects-pure owner kb {A = Option (Unit {0})} Any none tt
    Respects-delete_loop (suc fuel) =
        let again : M (Option (Unit {0})) = delete_loop kit page_of fuel in
        let next : List Document → M (Option (Unit {0})) =
          λ page. if is_empty kit page_of page then pure (some tt) else again in
        Respects-bind owner kb Any Any (fetch_next_batch kit page_of)
          (λ page. delete_batch kit page_of page >> next page) Respects-fetch_next_batch
          (λ page _.
            Respects-then Any (delete_batch kit page_of page) (next page)
              (Respects-delete_batch page)
              (Respects-unless_empty page again (Respects-delete_loop fuel)))
