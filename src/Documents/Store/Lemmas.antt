-- ===== src/Documents/Store/Lemmas.antt =====
-- What the repositories' operations do on a row that is there: the steps that the proofs about the handlers
-- and the processor compose.
use shiori_api.Shared.{
  ℕ, ◌≡◌, refl, ◌∙◌, ap, Bool, true, false, not, some, none, List, [], ◌∷◌, ◌++◌, drop, ◌==◌,
  ==_refl, arith, filter, find, All, Bool-cases, inl, inr, if◌then◌else◌,
}
use shiori_api.Tenancy.Isolation
use shiori_api.Tenancy.{ok, scoped, upsert, tenant_find, tenant_save, require}
use shiori_api.Documents.Aggregate.{Document, Kit, title_text, content_text}
use shiori_api.Documents.Store.{
  Chunk, Store, document_columns, accepts_reason, build, loaded, find_document, assert_exists,
  save_document, all_owned, is_blank, to_domain_first, to_domain, or_not_found, replace_documents,
  with_documents,
}

-- the test for a primary key
abbrev pub has_id : ℕ → Document → Bool
has_id id d = d.id == id

-- The row of the document `d.id`, whose primary key is unique.
abbrev pub IsRow : Document → List Document → Type 0
IsRow d ds = filter (has_id d.id) ds ≡ d ∷ []

-- What the builder asks of a document's fields.
pub record IsBuildable (kit : Kit) (d : Document) : Type 0 where
  pub has_title : is_blank d.title ≡ false
  pub has_content : is_blank d.content ≡ false
  pub title : kit.accepts title_text d.title ≡ true
  pub content : kit.accepts content_text d.content ≡ true
  pub reason : accepts_reason kit d.failure_reason ≡ true

pub build-loaded : (kit : Kit) (d : Document) → IsBuildable kit d → build kit (loaded d) ≡ ok d
unfolding build
build-loaded kit d h =
    rw h.has_title (rw h.has_content (rw h.title (rw h.content (rw h.reason refl))))

pub filter-scoped :
    (kb : ℕ) (p : Document → Bool) (ds : List Document)
    → filter (scoped document_columns kb p) ds
      ≡ filter (λ d. d.knowledge_base_id == kb) (filter p ds)
filter-scoped kb p [] = refl
filter-scoped kb p (d ∷ ds) = ground (arith, filter-scoped kb p ds)

pub filter-row :
    (d : Document) (ds : List Document)
    → IsRow d ds
    → filter (scoped document_columns d.knowledge_base_id (λ x. x.id == d.id)) ds ≡ d ∷ []
filter-row d ds row =
    filter-scoped d.knowledge_base_id (λ x. x.id == d.id) ds
    ∙ rw row (rw (==_refl d.knowledge_base_id) refl)

pub find_document-row :
    (kit : Kit) (d : Document) (s : Store)
    → IsRow d s.documents
    → IsBuildable kit d
    → find_document kit d.id (some d.knowledge_base_id) s
      ≡ (ok (some d), record s { builder = loaded d })
unfolding find_document tenant_find require to_domain_first
find_document-row kit d s row h = rw (filter-row d s.documents row) (rw (build-loaded kit d h) refl)

pub assert_exists-row :
    (kit : Kit) (d : Document) (s : Store)
    → IsRow d s.documents
    → IsBuildable kit d
    → assert_exists kit d.id (some d.knowledge_base_id) s ≡ (ok d, record s { builder = loaded d })
unfolding assert_exists or_not_found
assert_exists-row kit d s row h = rw (find_document-row kit d s row h) refl

pub save_document-frame :
    (kit : Kit) (d : Document) (s : Store)
    → IsBuildable kit d
    → save_document kit d (some d.knowledge_base_id) s
      ≡ (ok d, record s { documents = upsert (λ x. x.id) d s.documents; builder = loaded d })
unfolding save_document to_domain with_documents replace_documents tenant_save require
save_document-frame kit d s h = rw (build-loaded kit d h) refl

first : Document → List Document → Document
first d [] = d
first d (x ∷ ds) = x

-- The first of the rows is the one with the primary key, or has another.
data RowCases (old x : Document) (ds : List Document) : Type 0 where
  is_row : has_id old.id x ≡ true → x ≡ old → filter (has_id old.id) ds ≡ [] → RowCases old x ds
  is_other : has_id old.id x ≡ false → IsRow old ds → RowCases old x ds

row-cases : (old x : Document) (ds : List Document) → IsRow old (x ∷ ds) → RowCases old x ds
unfolding first
row-cases old x ds h = elim (Bool-cases (has_id old.id x)) [
  | inl e ↦ is_row e (ap (first old) (rw e at h)) (ap (drop 1) (rw e at h))
  | inr e ↦ is_other e (rw e at h)
]

-- `upsert` on the row with the entity's primary key
module _ (old new : Document) (same : new.id ≡ old.id) where
  new-has_id : has_id old.id new ≡ true
  new-has_id = rw same (==_refl old.id)

  as_new : (x : Document) → (x.id == new.id) ≡ has_id old.id x
  as_new x = ap (λ i. x.id == i) same

  upsert-step :
      (x : Document) (ds : List Document)
      → upsert (λ y. y.id) new (x ∷ ds)
        ≡ (if has_id old.id x then new ∷ ds else x ∷ upsert (λ y. y.id) new ds)
  upsert-step x ds = ap (λ t. if t then new ∷ ds else x ∷ upsert (λ y. y.id) new ds) (as_new x)

  pub upsert-IsRow :
      (ds : List Document)
      → IsRow old ds
      → filter (has_id old.id) (upsert (λ x. x.id) new ds) ≡ new ∷ []
  upsert-IsRow [] h = rw new-has_id refl
  upsert-IsRow (x ∷ ds) h =
      ap (filter (has_id old.id)) (upsert-step x ds) ∙ elim (row-cases old x ds h) [
        | is_row e same' none' ↦ rw e (rw new-has_id (ap (λ rest. new ∷ rest) none'))
        | is_other e row ↦ rw e (rw e (upsert-IsRow ds row))
      ]

  -- what the other rows are is kept
  pub filter-upsert :
      (q : Document → Bool) (ds : List Document)
      → q old ≡ false
      → q new ≡ false
      → IsRow old ds
      → filter q (upsert (λ x. x.id) new ds) ≡ filter q ds
  filter-upsert q [] q_old q_new h = rw q_new refl
  filter-upsert q (x ∷ ds) q_old q_new h =
      ap (filter q) (upsert-step x ds) ∙ elim (row-cases old x ds h) [
        | is_row e same' none' ↦ rw e (rw q_new (rw same' (rw q_old refl)))
        | is_other e row ↦ rw e (rw (filter-upsert q ds q_old q_new row) refl)
      ]

pub find-row :
    (d : Document) (ds : List Document)
    → IsRow d ds
    → find (λ (x : Document). x.id == d.id) ds ≡ some d
find-row d [] h = ap (find (λ x. true)) h
find-row d (x ∷ ds) h = elim (row-cases d x ds h) [
  | is_row e same none' ↦ rw e (ap some same)
  | is_other e row ↦ rw e (find-row d ds row)
]

-- Chunks with fresh primary keys are added behind the rows.
abbrev pub IsFresh : Chunk → List Chunk → Type 0
IsFresh c rows = All (λ (x : Chunk). (x.id == c.id) ≡ false) rows

pub upsert-fresh :
    (c : Chunk) (rows : List Chunk) → IsFresh c rows → upsert (λ x. x.id) c rows ≡ rows ++ c ∷ []
upsert-fresh c rows h = Isolation.upsert-fresh (λ x. x.id) c rows h

pub all_owned-row :
    (d : Document) (ds : List Document) (cs : List Chunk)
    → IsRow d ds
    → All (λ c. c.document_id ≡ d.id) cs
    → all_owned ds cs ≡ true
unfolding all_owned
all_owned-row d ds [] row own = refl
all_owned-row d ds (c ∷ cs) row (own_c, own) =
    rw (ap (λ i. find (λ (x : Document). x.id == i) ds) own_c ∙ find-row d ds row, all_owned)
      (all_owned-row d ds cs row own)

-- A table without the row gets it.
pub upsert-new :
    (d : Document) (ds : List Document)
    → filter (has_id d.id) ds ≡ []
    → IsRow d (upsert (λ x. x.id) d ds)
upsert-new d [] h = rw (==_refl d.id) refl
upsert-new d (x ∷ ds) h = elim (Bool-cases (has_id d.id x)) [
  | inl e ↦ rw (e, ==_refl d.id) (ap (λ rest. d ∷ rest) (ap (drop 1) (rw e at h)))
  | inr e ↦ rw (e, e) (upsert-new d ds (rw e at h))
]

pub find-none :
    (id : ℕ) (ds : List Document)
    → filter (has_id id) ds ≡ []
    → find (λ (x : Document). x.id == id) ds ≡ none
find-none id [] h = refl
find-none id (x ∷ ds) h = elim (Bool-cases (has_id id x)) [
  | inl e ↦ rw e (ap (find (λ y. true)) (rw e at h))
  | inr e ↦ rw e (find-none id ds (rw e at h))
]

pub filter-upsert-new :
    (d : Document) (ds : List Document)
    → filter (has_id d.id) ds ≡ []
    → filter (λ x. not (has_id d.id x)) (upsert (λ x. x.id) d ds)
      ≡ filter (λ x. not (has_id d.id x)) ds
filter-upsert-new d [] h = rw (==_refl d.id) refl
filter-upsert-new d (x ∷ ds) h = elim (Bool-cases (has_id d.id x)) [
  | inl e ↦ rw e (rw (==_refl d.id) refl)
  | inr e ↦ rw e (rw e (ap (λ rest. x ∷ rest) (filter-upsert-new d ds (rw e at h))))
]
