-- ===== src/Documents/Tests/Purge.antt =====
-- The deletion loop on the rows of two knowledge bases, in pages of the first rows.
use shiori_api.Shared.{ℕ, zero, suc, ◌≡◌, refl, Bool, some, List, [], ◌∷◌, take, filter, All, arith}
use shiori_api.Documents.Aggregate.{Document}
use shiori_api.Documents.Commands.{delete_batch_size, delete_loop}
use shiori_api.Documents.Commands.Purge.{IsPaging, IsPurgedFrom, delete_loop-IsPurgedFrom}
use shiori_api.Documents.Tests.{kit, store, doc_buildable}

abbrev pub first_rows : ℕ → (Document → Bool) → List Document → List Document
first_rows limit p ds = take limit (filter p ds)

All-take : (P : Document → Type 0) (n : ℕ) (ds : List Document) → All P ds → All P (take n ds)
All-take P zero ds h = tt
All-take P (suc n) [] h = tt
All-take P (suc n) (d ∷ ds) (hd, h) = (hd, All-take P n ds h)

take-nil : (n : ℕ) (ds : List Document) → take (suc n) ds ≡ [] → ds ≡ []
take-nil n [] e = refl
take-nil n (d ∷ ds) e = ground arith

pub first_rows-IsPaging : IsPaging first_rows
first_rows-IsPaging = record {
  rows_only = λ p ds P h. All-take P delete_batch_size (filter p ds) h;
  some_row = λ p ds e. take-nil 99 (filter p ds) e;
}

delete_loop-IsPurgedFrom_example :
    IsPurgedFrom kit first_rows 10 store (delete_loop kit first_rows 2 (some 10) store)
delete_loop-IsPurgedFrom_example =
    delete_loop-IsPurgedFrom kit first_rows 10 first_rows-IsPaging 2 store
      ((λ h. doc_buildable), ((λ h. ground arith), tt)) (omega arith)
