-- ===== src/Embeddings/Storage/Tables.antt =====
-- The table `embeddings` with the vector tables: rows with identifiers of their own, and no vector without its row.
use shiori_api.Shared.{
  ℕ, ◌≡◌, refl, sym, ap, ◌∙◌, Bool, true, false, not, ◌&&◌, ◌||◌, List, [], ◌∷◌, ◌++◌, append-nil,
  append_assoc, ◌==◌, ==_refl, arith, filter, find, All, All-map, All-map2, All-append,
  All-filter_and, filter_comm, filter-append, filter-filter, ==_iff, filter-none,
  find-none_of_filter, Bool-cases, inl, inr, if◌then◌else◌,
}
use shiori_api.Tenancy.{upsert}
use shiori_api.Tenancy.Isolation.{upsert-fresh}
use shiori_api.Embeddings.World.{Joined, Embedding, VectorRow}
use shiori_api.Embeddings.Storage.{is_row_of, is_vector_of, is_some, upsert_vector}
use shiori_api.Embeddings.Search.{join, joined_with}

abbrev pub has_row : List Embedding → ℕ → Bool
has_row rows id = is_some (find (is_row_of id) rows)

pub record IsWellFormed (rows : List Embedding) (vectors : List VectorRow) : Type 0 where
  -- the primary key of `embeddings`
  pub sole : All (λ e. filter (is_row_of e.id) rows ≡ e ∷ []) rows
  -- the foreign key of the vector tables
  pub owned : All (λ (v : VectorRow). has_row rows v.embedding_id ≡ true) vectors

-- no row has the identifier
abbrev pub IsFresh : ℕ → List Embedding → Type 0
IsFresh id rows = All (λ (x : Embedding). (x.id == id) ≡ false) rows

-- Deletion of the rows that meet `p`, with their vectors.
module _ (p : Embedding → Bool) (rows : List Embedding) where
  abbrev pub stays : VectorRow → Bool
  stays v = not (has_row (filter p rows) v.embedding_id)

  abbrev pub remaining : List Embedding
  remaining = filter (λ e. not (p e)) rows

  is_some-split :
      (id : ℕ) (es : List Embedding)
      → has_row es id ≡ (has_row (filter p es) id || has_row (filter (λ e. not (p e)) es) id)
  is_some-split id [] = refl
  is_some-split id (e ∷ es) = ground (arith, is_some-split id es)

  kept_row :
      (e : Embedding)
      → not (p e) ≡ true
      → filter (is_row_of e.id) rows ≡ e ∷ []
      → filter (is_row_of e.id) remaining ≡ e ∷ []
  kept_row e keep h =
      filter_comm (is_row_of e.id) (λ x. not (p x)) rows
      ∙ ap (filter (λ x. not (p x))) h
      ∙ rw keep refl

  kept_vector :
      (v : VectorRow)
      → stays v ≡ true
      → has_row rows v.embedding_id ≡ true
      → has_row remaining v.embedding_id ≡ true
  kept_vector v keep h = ground (arith, is_some-split v.embedding_id rows)

  pub delete-IsWellFormed :
      (vectors : List VectorRow)
      → IsWellFormed rows vectors
      → IsWellFormed remaining (filter stays vectors)
  delete-IsWellFormed vectors h = record {
    sole = All-filter_and (λ e. not (p e)) kept_row rows h.sole;
    owned = All-filter_and stays kept_vector vectors h.owned;
  }

  vector-stays :
      (n : ℕ) (e : Embedding) (v : VectorRow)
      → has_row (filter p rows) e.id ≡ false
      → is_vector_of n e.id v ≡ true
      → stays v ≡ true
  vector-stays n e v h own =
      ap (λ i. not (has_row (filter p rows) i)) ((==_iff v.embedding_id e.id).0 (ground arith))
      ∙ ap not h

  -- the vectors of a row that stays
  vectors-kept :
      (n : ℕ) (e : Embedding) (vectors : List VectorRow)
      → has_row (filter p rows) e.id ≡ false
      → filter (is_vector_of n e.id) (filter stays vectors) ≡ filter (is_vector_of n e.id) vectors
  vectors-kept n e vectors h =
      filter-filter (is_vector_of n e.id) stays vectors (λ v. vector-stays n e v h)

  row_gone :
      (e : Embedding)
      → p e ≡ false
      → filter (is_row_of e.id) rows ≡ e ∷ []
      → has_row (filter p rows) e.id ≡ false
  row_gone e out h = ap is_some (
      find-none_of_filter (is_row_of e.id) (filter p rows)
        (filter_comm (is_row_of e.id) p rows ∙ ap (filter p) h ∙ rw out refl))

  filter-joined :
      (e : Embedding) (t : Bool) (vs : List VectorRow)
      → p e ≡ t
      → filter (λ (j : Joined). not (p j.row)) (joined_with e vs)
        ≡ (if t then [] else joined_with e vs)
  filter-joined e true [] h = refl
  filter-joined e false [] h = refl
  filter-joined e true (v ∷ vs) h = rw h (filter-joined e true vs h)
  filter-joined e false (v ∷ vs) h =
      rw h
        (ap (λ rest. record { row = e; vector = v.embedding } ∷ rest) (filter-joined e false vs h))

  -- What is left is what was joined, without the rows that meet `p`.
  pub join-delete :
      (n : ℕ) (vectors : List VectorRow) (es : List Embedding)
      → All (λ e. filter (is_row_of e.id) rows ≡ e ∷ []) es
      → join n (filter stays vectors) (filter (λ e. not (p e)) es)
        ≡ filter (λ (j : Joined). not (p j.row)) (join n vectors es)
  unfolding join
  join-delete n vectors [] h = refl
  join-delete n vectors (e ∷ es) (he, h) =
      let keep = λ (j : Joined). not (p j.row) in
      let here = joined_with e (filter (is_vector_of n e.id) vectors) in
      let behind = join n vectors es in
      elim (Bool-cases (p e)) [
        | inl t ↦ rw t (
            join-delete n vectors es h
            ∙ sym (
                filter-append keep here behind
                ∙ ap (λ l. l ++ filter keep behind)
                    (filter-joined e true (filter (is_vector_of n e.id) vectors) t)))
        | inr t ↦ rw t (
            ap (λ l. joined_with e l ++ join n (filter stays vectors) (filter (λ x. not (p x)) es))
              (vectors-kept n e vectors (row_gone e t he))
            ∙ ap (λ l. here ++ l) (join-delete n vectors es h)
            ∙ sym (
                filter-append keep here behind
                ∙ ap (λ l. l ++ filter keep behind)
                    (filter-joined e false (filter (is_vector_of n e.id) vectors) t)))
      ]

has_row-append :
    (xs ys : List Embedding) (id : ℕ) → has_row (xs ++ ys) id ≡ (has_row xs id || has_row ys id)
has_row-append [] ys id = refl
has_row-append (x ∷ xs) ys id = ground (arith, has_row-append xs ys id)

join-append :
    (n : ℕ) (vs : List VectorRow) (xs ys : List Embedding)
    → join n vs (xs ++ ys) ≡ join n vs xs ++ join n vs ys
unfolding join
join-append n vs [] ys = refl
join-append n vs (x ∷ xs) ys =
    ap (λ l. joined_with x (filter (is_vector_of n x.id) vs) ++ l) (join-append n vs xs ys)
    ∙ sym (append_assoc _ (join n vs xs) (join n vs ys))

-- A row with its vector, under an identifier that no row has.
module _ (rows : List Embedding) (vectors : List VectorRow) (e : Embedding) (v : VectorRow)
    (fresh : IsFresh e.id rows) (same : v.embedding_id ≡ e.id) where
  other_row :
      (x : Embedding)
      → (x.id == e.id) ≡ false
      → filter (is_row_of x.id) rows ≡ x ∷ []
      → filter (is_row_of x.id) (rows ++ e ∷ []) ≡ x ∷ []
  other_row x apart h =
      filter-append (is_row_of x.id) rows (e ∷ [])
      ∙ ap (λ l. l ++ filter (is_row_of x.id) (e ∷ [])) h
      ∙ ground arith

  own_row : filter (is_row_of e.id) (rows ++ e ∷ []) ≡ e ∷ []
  own_row =
      filter-append (is_row_of e.id) rows (e ∷ [])
      ∙ ap (λ l. l ++ filter (is_row_of e.id) (e ∷ [])) (filter-none (is_row_of e.id) rows fresh)
      ∙ rw (==_refl e.id) refl

  fresh_row : has_row rows e.id ≡ false
  fresh_row =
      ap is_some
        (find-none_of_filter (is_row_of e.id) rows (filter-none (is_row_of e.id) rows fresh))

  pub append-IsWellFormed :
      IsWellFormed rows vectors → IsWellFormed (rows ++ e ∷ []) (vectors ++ v ∷ [])
  append-IsWellFormed h = record {
    sole =
        All-append (λ x. filter (is_row_of x.id) (rows ++ e ∷ []) ≡ x ∷ []) rows (e ∷ [])
          (All-map2 other_row rows fresh h.sole) (own_row, tt);
    owned =
        All-append (λ (x : VectorRow). has_row (rows ++ e ∷ []) x.embedding_id ≡ true) vectors
          (v ∷ [])
          (All-map (λ x own. has_row-append rows (e ∷ []) x.embedding_id ∙ rw own refl) vectors
            h.owned)
          (
            has_row-append rows (e ∷ []) v.embedding_id
                ∙ ap (λ i. has_row rows i || has_row (e ∷ []) i) same
                ∙ rw (fresh_row, ==_refl e.id) refl,
            tt,
          );
  }

  vector_apart : (n : ℕ) (x : Embedding) → (x.id == e.id) ≡ false → is_vector_of n x.id v ≡ false
  vector_apart n x apart = ap (λ i. v.dimensions == n && i == x.id) same ∙ ground arith

  vector_other :
      (n : ℕ) (x : Embedding)
      → (x.id == e.id) ≡ false
      → filter (is_vector_of n x.id) (vectors ++ v ∷ []) ≡ filter (is_vector_of n x.id) vectors
  vector_other n x apart =
      filter-append (is_vector_of n x.id) vectors (v ∷ [])
      ∙ rw (vector_apart n x apart) (append-nil (filter (is_vector_of n x.id) vectors))

  join-other :
      (n : ℕ) (xs : List Embedding)
      → IsFresh e.id xs
      → join n (vectors ++ v ∷ []) xs ≡ join n vectors xs
  unfolding join
  join-other n [] h = refl
  join-other n (x ∷ xs) (hx, h) =
      ap (λ l. joined_with x l ++ join n (vectors ++ v ∷ []) xs) (vector_other n x hx)
      ∙ ap (λ l. joined_with x (filter (is_vector_of n x.id) vectors) ++ l) (join-other n xs h)

  pub not_vector :
      (n : ℕ) (x : VectorRow) → has_row rows x.embedding_id ≡ true → is_vector_of n e.id x ≡ false
  not_vector n x own = elim (Bool-cases (x.embedding_id == e.id)) [
    | inl t ↦
        let c = sym own ∙ ap (has_row rows) ((==_iff x.embedding_id e.id).0 t) ∙ fresh_row in
        ground arith
    | inr t ↦ ground arith
  ]

  no_vector : (n : ℕ) → IsWellFormed rows vectors → filter (is_vector_of n e.id) vectors ≡ []
  no_vector n h = filter-none (is_vector_of n e.id) vectors (All-map (not_vector n) vectors h.owned)

  own_test : (n : ℕ) → v.dimensions ≡ n → is_vector_of n e.id v ≡ true
  own_test n table = rw (same, table, ==_refl n, ==_refl e.id) refl

  own_vector :
      (n : ℕ)
      → v.dimensions ≡ n
      → IsWellFormed rows vectors
      → filter (is_vector_of n e.id) (vectors ++ v ∷ []) ≡ v ∷ []
  own_vector n table h =
      filter-append (is_vector_of n e.id) vectors (v ∷ [])
      ∙ ap (λ l. l ++ filter (is_vector_of n e.id) (v ∷ [])) (no_vector n h)
      ∙ rw (own_test n table) refl

  -- The row is joined with its vector, behind what was joined before.
  pub join-insert :
      (n : ℕ)
      → v.dimensions ≡ n
      → IsWellFormed rows vectors
      → join n (vectors ++ v ∷ []) (rows ++ e ∷ [])
        ≡ join n vectors rows ++ record { row = e; vector = v.embedding } ∷ []
  unfolding join
  join-insert n table h =
      join-append n (vectors ++ v ∷ []) rows (e ∷ [])
      ∙ ap (λ l. l ++ join n (vectors ++ v ∷ []) (e ∷ [])) (join-other n rows fresh)
      ∙ ap (λ l. join n vectors rows ++ (joined_with e l ++ [])) (own_vector n table h)

  pub upsert-fresh_row : upsert (λ x. x.id) e rows ≡ rows ++ e ∷ []
  upsert-fresh_row = upsert-fresh (λ x. x.id) e rows fresh

  behind :
      (xs : List VectorRow)
      → All (λ x. is_vector_of v.dimensions v.embedding_id x ≡ false) xs
      → upsert_vector v xs ≡ xs ++ v ∷ []
  unfolding upsert_vector
  behind [] h = refl
  behind (x ∷ xs) (hx, h) = rw hx (ap (λ l. x ∷ l) (behind xs h))

  pub upsert-fresh_vector : IsWellFormed rows vectors → upsert_vector v vectors ≡ vectors ++ v ∷ []
  upsert-fresh_vector h = behind vectors (
      All-map
        (λ x own. ap (λ i. is_vector_of v.dimensions i x) same ∙ not_vector v.dimensions x own)
        vectors h.owned)
