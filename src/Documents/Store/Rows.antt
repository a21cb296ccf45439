-- ===== src/Documents/Store/Rows.antt =====
-- The rows of the tables of documents and chunks under the foreign key, with its cascade.
use shiori_api.Shared.{
  ℕ, ◌≡◌, refl, Bool, true, false, not, ◌||◌, List, [], ◌∷◌, ◌==◌, arith, filter, find, some, none,
  All, All-filter, Bool-cases, inl, inr,
}
use shiori_api.Tenancy.{upsert}
use shiori_api.Tenancy.Isolation
use shiori_api.Documents.Aggregate.{Document}
use shiori_api.Documents.Store.{Chunk, all_owned, save_all, without_chunks_of}

-- whether a document has the identifier
abbrev pub is_there : ℕ → List Document → Bool
is_there i [] = false
is_there i (d ∷ ds) = (d.id == i) || is_there i ds

abbrev pub IsThere : List Document → Chunk → Type 0
IsThere ds c = is_there c.document_id ds ≡ true

pub is_there-upsert :
    (i : ℕ) (d : Document) (ds : List Document)
    → is_there i ds ≡ true
    → is_there i (upsert (λ x. x.id) d ds) ≡ true
is_there-upsert i d [] h = ground arith
is_there-upsert i d (x ∷ ds) h = ground (arith, is_there-upsert i d ds)

pub is_there-filter :
    (i : ℕ) (p : Document → Bool) (ds : List Document)
    → ((d : Document) → (d.id == i) ≡ true → p d ≡ true)
    → is_there i ds ≡ true
    → is_there i (filter p ds) ≡ true
is_there-filter i p [] f h = ground arith
is_there-filter i p (x ∷ ds) f h = ground (arith, f x, is_there-filter i p ds f)

pub filter-filter_All :
    {A : Type 0} (p q : A → Bool) (xs : List A)
    → All (λ x. p x ≡ true → q x ≡ true) xs
    → filter p (filter q xs) ≡ filter p xs
filter-filter_All p q [] h = refl
filter-filter_All p q (x ∷ xs) (hx, h) = ground (arith, hx, filter-filter_All p q xs h)

data FindCases (i : ℕ) (ds : List Document) : Type 0 where
  is_found :
      (d : Document)
      → find (λ (x : Document). x.id == i) ds ≡ some d
      → is_there i ds ≡ true
      → FindCases i ds
  is_missing : find (λ (x : Document). x.id == i) ds ≡ none → FindCases i ds

find-cases : (i : ℕ) (ds : List Document) → FindCases i ds
find-cases i [] = is_missing refl
find-cases i (x ∷ ds) = elim (Bool-cases (x.id == i)) [
  | inl e ↦ is_found x (rw e refl) (rw e refl)
  | inr e ↦ elim (find-cases i ds) [
    | is_found d f there ↦ is_found d (rw e f) (rw e there)
    | is_missing f ↦ is_missing (rw e f)
  ]
]

-- the foreign key, for each chunk
pub all_owned-IsThere :
    (ds : List Document) (cs : List Chunk) → all_owned ds cs ≡ true → All (IsThere ds) cs
unfolding all_owned
all_owned-IsThere ds [] h = tt
all_owned-IsThere ds (c ∷ cs) h = elim (find-cases c.document_id ds) [
  | is_found d e there ↦ (there, all_owned-IsThere ds cs (rw (e, all_owned) at h))
  | is_missing e ↦ absurd (let c = rw (e, all_owned) at h in ground arith)
]

pub save_all-All :
    (P : Chunk → Type 0) (cs rows : List Chunk) → All P cs → All P rows → All P (save_all cs rows)
unfolding save_all
save_all-All P [] rows h r = r
save_all-All P (c ∷ cs) rows (hc, h) r =
    save_all-All P cs (upsert (λ x. x.id) c rows) h (Isolation.upsert-All (λ x. x.id) P c rows hc r)

pub without_chunks_of-All :
    (P : Chunk → Type 0) (ds : List Document) (cs : List Chunk)
    → All P cs
    → All P (without_chunks_of ds cs)
unfolding without_chunks_of
without_chunks_of-All P [] cs h = h
without_chunks_of-All P (d ∷ ds) cs h =
    All-filter P (λ c. not (c.document_id == d.id)) (without_chunks_of ds cs)
      (without_chunks_of-All P ds cs h)
