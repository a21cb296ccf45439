-- ===== src/Documents/Commands/Purge.antt =====
-- Deleting the documents of a knowledge base.
use shiori_api.Shared.{
  Bool-cases, inl, inr, ℕ, zero, suc, ◌<◌, ◌≤◌, ◌≡◌, refl, sym, ◌∙◌, ap, subst, Bool, true, false,
  not, ◌||◌, Option, some, List, [], ◌∷◌, ==_refl, ◌==◌, filter, arith, length, All, All-map,
  All-filter,
}
use shiori_api.Tenancy.{Result, ok, scoped}
use shiori_api.Documents.Aggregate.{Document, Kit}
use shiori_api.Documents.Store.{DocumentBuilder, Store, document_columns, loaded}
use shiori_api.Documents.Store.Lemmas.{IsBuildable, has_id, build-loaded}
use shiori_api.Documents.Commands.{delete_batch_size, to_domain_all, delete_batch, delete_loop}

abbrev pub of_base : ℕ → Document → Bool
of_base kb d = d.knowledge_base_id == kb

-- What is relied on of a page of the rows that meet a condition: it has rows of these only, and one where there
-- is one.
pub record IsPaging (page_of : ℕ → (Document → Bool) → List Document → List Document) : Type 1 where
  pub rows_only :
      (p : Document → Bool) (ds : List Document) (P : Document → Type 0)
      → All P (filter p ds)
      → All P (page_of delete_batch_size p ds)
  pub some_row :
      (p : Document → Bool) (ds : List Document)
      → page_of delete_batch_size p ds ≡ []
      → filter p ds ≡ []

abbrev any_id : ℕ → List Document → Bool
any_id id [] = false
any_id id (d ∷ ds) = has_id id d || any_id id ds

any_id_self : (ds : List Document) → All (λ d. any_id d.id ds ≡ true) ds
any_id_self [] = tt
any_id_self (d ∷ ds) = (rw (==_refl d.id) refl, All-map (λ x h. ground arith) ds (any_id_self ds))

-- the rows that a deletion leaves
abbrev without : ℕ → Document → List Document → List Document
without kb d = filter (λ x. not (scoped document_columns kb (has_id d.id) x))

module _ (kb : ℕ) where
  without-smaller :
      (d : Document) (ds : List Document)
      → length (filter (of_base kb) (without kb d ds)) ≤ length (filter (of_base kb) ds)
  without-smaller d [] = omega arith
  without-smaller d (x ∷ ds) = ground (arith, without-smaller d ds)

  without-less :
      (d : Document) (ds : List Document)
      → any_id d.id (filter (of_base kb) ds) ≡ true
      → length (filter (of_base kb) (without kb d ds)) < length (filter (of_base kb) ds)
  without-less d [] h = ground arith
  without-less d (x ∷ ds) h = ground (arith, without-smaller d ds, without-less d ds)

  without-others :
      (d : Document) (ds : List Document)
      → filter (λ x. not (of_base kb x)) (without kb d ds) ≡ filter (λ x. not (of_base kb x)) ds
  without-others d [] = refl
  without-others d (x ∷ ds) = ground (arith, without-others d ds)

  -- the rows that deleting each of a page leaves
  abbrev remaining : List Document → List Document → List Document
  remaining [] ds = ds
  remaining (d ∷ page) ds = remaining page (without kb d ds)

  remaining-smaller :
      (page ds : List Document)
      → length (filter (of_base kb) (remaining page ds)) ≤ length (filter (of_base kb) ds)
  remaining-smaller [] ds = omega arith
  remaining-smaller (d ∷ page) ds =
      omega (arith, remaining-smaller page (without kb d ds), without-smaller d ds)

  remaining-others :
      (page ds : List Document)
      → filter (λ x. not (of_base kb x)) (remaining page ds) ≡ filter (λ x. not (of_base kb x)) ds
  remaining-others [] ds = refl
  remaining-others (d ∷ page) ds = remaining-others page (without kb d ds) ∙ without-others d ds

  remaining-All :
      (P : Document → Type 0) (page ds : List Document) → All P ds → All P (remaining page ds)
  remaining-All P [] ds h = h
  remaining-All P (d ∷ page) ds h = remaining-All P page (without kb d ds) (All-filter P _ ds h)

module _ (kit : Kit) (page_of : ℕ → (Document → Bool) → List Document → List Document)
    (kb : ℕ) where
  delete_batch-remaining :
      (page : List Document) (s : Store)
      → ((delete_batch kit page_of page (some kb) s).0 ≡ ok tt)
        × ((delete_batch kit page_of page (some kb) s).1.documents ≡ remaining kb page s.documents)
  unfolding delete_batch
  delete_batch-remaining [] s = (refl, refl)
  delete_batch-remaining (d ∷ page) s = delete_batch-remaining page _

  -- the builder behind the mapping of a page
  abbrev last_loaded : DocumentBuilder → List Document → DocumentBuilder
  last_loaded b [] = b
  last_loaded b (d ∷ page) = last_loaded (loaded d) page

  to_domain_all-page :
      (page : List Document) (s : Store)
      → All (IsBuildable kit) page
      → to_domain_all kit page_of page (some kb) s
        ≡ (ok page, record s { builder = last_loaded s.builder page })
  unfolding to_domain_all
  to_domain_all-page [] s h = refl
  to_domain_all-page (d ∷ page) s (hd, h) =
      rw (build-loaded kit d hd, to_domain_all-page page (record s { builder = loaded d }) h) refl

  unfoldable pub next_page : Store → List Document
  next_page s = page_of delete_batch_size (of_base kb) s.documents

  -- one turn of the loop
  pub turn-last :
      (fuel : ℕ) (s : Store)
      → next_page s ≡ []
      → delete_loop kit page_of (suc fuel) (some kb) s ≡ (ok (some tt), s)
  unfolding delete_loop next_page
  turn-last fuel s last = rw last refl

  abbrev after_turn : Store → List Document → Store
  after_turn s page =
      (delete_batch kit page_of page (some kb)
        (record s { builder = last_loaded s.builder page })).1

  turn-more :
      (fuel : ℕ) (s : Store) (d : Document) (page : List Document)
      → next_page s ≡ d ∷ page
      → All (IsBuildable kit) (d ∷ page)
      → delete_loop kit page_of (suc fuel) (some kb) s
        ≡ delete_loop kit page_of fuel (some kb) (after_turn s (d ∷ page))
  unfolding delete_loop next_page
  turn-more fuel s d page more built =
      rw
        (
          more,
          to_domain_all-page (d ∷ page) s built,
          (delete_batch-remaining (d ∷ page)
              (record s { builder = last_loaded s.builder (d ∷ page) })).0,
        )
        refl

  own-All :
      (P : Document → Type 0) (ds : List Document)
      → All (λ x. of_base kb x ≡ true → P x) ds
      → All P (filter (of_base kb) ds)
  own-All P [] h = tt
  own-All P (d ∷ ds) (hd, h) = elim (Bool-cases (of_base kb d)) [
    | inl e ↦ rw e (hd e, own-All P ds h)
    | inr e ↦ rw e (own-All P ds h)
  ]

  -- What the loop leaves: no row of the knowledge base, and the others as they were.
  pub record IsPurgedFrom (s : Store) (out : Result (Option (Unit {0})) × Store) : Type 0 where
    pub done : out.0 ≡ ok (some tt)
    pub none_left : filter (of_base kb) (out.1).documents ≡ []
    pub others :
        filter (λ x. not (of_base kb x)) (out.1).documents
        ≡ filter (λ x. not (of_base kb x)) s.documents

  delete_loop-cases :
      IsPaging page_of
      → (fuel : ℕ) (s : Store) (page : List Document) → next_page s ≡ page
      → All (λ x. of_base kb x ≡ true → IsBuildable kit x) s.documents
      → length (filter (of_base kb) s.documents) < fuel
      → IsPurgedFrom s (delete_loop kit page_of fuel (some kb) s)
  unfolding next_page
  delete_loop-cases paging zero s page e built enough = ground arith
  delete_loop-cases paging (suc fuel) s [] e built enough =
      subst (IsPurgedFrom s) (sym (turn-last fuel s e)) (record {
        done = refl;
        none_left = paging.some_row (of_base kb) s.documents e;
        others = refl;
      })
  delete_loop-cases paging (suc fuel) s (d ∷ page) e built enough =
      let own = λ (P : Document → Type 0) (h : All P (filter (of_base kb) s.documents)).
        subst (All P) e (paging.rows_only (of_base kb) s.documents P h) in
      let page_built = own (IsBuildable kit) (own-All (IsBuildable kit) s.documents built) in
      let in_rows =
        own (λ x. any_id x.id (filter (of_base kb) s.documents) ≡ true)
          (any_id_self (filter (of_base kb) s.documents)) in
      let s' = after_turn s (d ∷ page) in
      let left =
        (delete_batch-remaining (d ∷ page)
          (record s { builder = last_loaded s.builder (d ∷ page) })).1 in
      let rest =
        delete_loop-cases paging fuel s' (next_page s') refl
          (subst (All (λ x. of_base kb x ≡ true → IsBuildable kit x)) (sym left) (
            remaining-All kb (λ x. of_base kb x ≡ true → IsBuildable kit x) (d ∷ page) s.documents
              built))
          (subst (λ ds. length (filter (of_base kb) ds) < fuel) (sym left)
            (omega (
              arith,
              enough,
              remaining-smaller kb page (without kb d s.documents),
              without-less kb d s.documents in_rows.0,
            ))) in
      subst (IsPurgedFrom s) (sym (turn-more fuel s d page e page_built)) (record {
        done = rest.done;
        none_left = rest.none_left;
        others =
            rest.others
            ∙ ap (filter (λ x. not (of_base kb x))) left
            ∙ remaining-others kb (d ∷ page) s.documents;
      })

  -- DeleteDocumentsByKnowledgeBase ends, given fuel for one turn more than the knowledge base has documents, where the
  -- builder takes each of them: no row of the knowledge base is left in `documents`, and the rows
  -- of the others are as they were.
  pub delete_loop-IsPurgedFrom :
      IsPaging page_of
      → (fuel : ℕ) (s : Store) → All (λ x. of_base kb x ≡ true → IsBuildable kit x) s.documents
      → length (filter (of_base kb) s.documents) < fuel
      → IsPurgedFrom s (delete_loop kit page_of fuel (some kb) s)
  delete_loop-IsPurgedFrom paging fuel s = delete_loop-cases paging fuel s (next_page s) refl
