-- ===== src/Embeddings/Storage/Index.antt =====
-- The tables as an index: which passages, with which vectors, a search ranges over, and what the repository's
-- operations make of it.
use shiori_api.Shared.{
  ℕ, ◌≡◌, refl, sym, ap, ◌∙◌, Bool, true, not, List, [], ◌∷◌, ◌++◌, append-nil, append_assoc,
  filter, map, filter_comm, filter-append, some, Str,
}
use shiori_api.Tenancy.{ok, require}
use shiori_api.Embeddings.World.{Joined, Embedding, VectorRow, World}
use shiori_api.Embeddings.Storage.{
  EmbeddingAggregate, stamp, to_vector_persistence, save_rows, save_vectors, save_many, insert,
  all_owned, table_for, delete_rows, is_of,
}
use shiori_api.Embeddings.Search.{join, candidates}
use shiori_api.Embeddings.Storage.Tables.{
  IsWellFormed, IsFresh, append-IsWellFormed, join-insert, upsert-fresh_row, upsert-fresh_vector,
  delete-IsWellFormed, join-delete,
}

-- what the aggregates are in the index
abbrev pub passage : ℕ → EmbeddingAggregate → Joined
passage kb a = record { row = stamp kb a; vector = a.embedding }

abbrev pub passages : ℕ → List EmbeddingAggregate → List Joined
passages kb es = map (passage kb) es

-- No row has an identifier of these, and they are distinct.
abbrev pub AreFresh : List Embedding → List Embedding → Type 0
AreFresh rows [] = Unit
AreFresh rows (e ∷ es) = IsFresh e.id rows × AreFresh (rows ++ e ∷ []) es

-- What saving aggregates under fresh identifiers makes of the tables.
pub record IsSaved (kb n : ℕ) (es : List EmbeddingAggregate) (rows : List Embedding)
    (vectors : List VectorRow) : Type 0 where
  pub rows_added : save_rows (map (stamp kb) es) rows ≡ rows ++ map (stamp kb) es
  pub vectors_added :
      save_vectors (map (to_vector_persistence n) es) vectors
      ≡ vectors ++ map (to_vector_persistence n) es
  pub formed :
      IsWellFormed (rows ++ map (stamp kb) es) (vectors ++ map (to_vector_persistence n) es)
  pub joined :
      join n (vectors ++ map (to_vector_persistence n) es) (rows ++ map (stamp kb) es)
      ≡ join n vectors rows ++ passages kb es

module _ (kb n : ℕ) where
  pub save-IsSaved :
      (es : List EmbeddingAggregate) (rows : List Embedding) (vectors : List VectorRow)
      → IsWellFormed rows vectors
      → AreFresh rows (map (stamp kb) es)
      → IsSaved kb n es rows vectors
  unfolding save_rows save_vectors
  save-IsSaved [] rows vectors h fresh = record {
    rows_added = sym (append-nil rows);
    vectors_added = sym (append-nil vectors);
    formed = rw (append-nil rows, append-nil vectors) h;
    joined = rw (append-nil rows, append-nil vectors) (sym (append-nil (join n vectors rows)));
  }
  save-IsSaved (a ∷ es) rows vectors h (fresh, later) =
      let e = stamp kb a in
      let v = to_vector_persistence n a in
      let saved =
        save-IsSaved es (rows ++ e ∷ []) (vectors ++ v ∷ [])
          (append-IsWellFormed rows vectors e v fresh refl h) later in
      record {
        rows_added =
            ap (save_rows (map (stamp kb) es)) (upsert-fresh_row rows vectors e v fresh refl)
            ∙ saved.rows_added
            ∙ append_assoc rows (e ∷ []) (map (stamp kb) es);
        vectors_added =
            ap (save_vectors (map (to_vector_persistence n) es))
              (upsert-fresh_vector rows vectors e v fresh refl h)
            ∙ saved.vectors_added
            ∙ append_assoc vectors (v ∷ []) (map (to_vector_persistence n) es);
        formed =
            rw
              (
                append_assoc rows (e ∷ []) (map (stamp kb) es),
                append_assoc vectors (v ∷ []) (map (to_vector_persistence n) es),
              )
              at saved.formed;
        joined =
            (rw
              (
                append_assoc rows (e ∷ []) (map (stamp kb) es),
                append_assoc vectors (v ∷ []) (map (to_vector_persistence n) es),
              )
              at saved.joined)
            ∙ ap (λ l. l ++ passages kb es) (join-insert rows vectors e v fresh refl n refl h)
            ∙ append_assoc (join n vectors rows) (passage kb a ∷ []) (passages kb es);
      }

-- the tables of a world
abbrev pub IsFormed : World → Type 0
IsFormed s = IsWellFormed s.embeddings s.vectors

-- the world behind a transaction that saves the aggregates
abbrev pub saved_world : ℕ → ℕ → List EmbeddingAggregate → World → World
saved_world kb n es s = record s {
  embeddings = s.embeddings ++ map (stamp kb) es;
  vectors = s.vectors ++ map (to_vector_persistence n) es;
}

module _ (kb n dimensions : ℕ) (es : List EmbeddingAggregate) (s : World)
    (table : table_for dimensions ≡ ok n)
    (owned : all_owned s.documents.documents s.documents.chunks (map (stamp kb) es) ≡ true)
    (formed : IsFormed s) (fresh : AreFresh s.embeddings (map (stamp kb) es)) where
  saved : IsSaved kb n es s.embeddings s.vectors
  saved = save-IsSaved kb n es s.embeddings s.vectors formed fresh

  pub insert-saved :
      insert n (map (stamp kb) es) (map (to_vector_persistence n) es) (some kb) s
      ≡ (ok tt, saved_world kb n es s)
  unfolding insert
  insert-saved = rw owned (
      ap
        (λ rows. (
          ok tt,
          record s {
            embeddings = rows;
            vectors = save_vectors (map (to_vector_persistence n) es) s.vectors;
          },
        ))
        saved.rows_added
      ∙ ap
          (λ vectors.
            (ok tt, record s { embeddings = s.embeddings ++ map (stamp kb) es; vectors = vectors }))
          saved.vectors_added)

  pub candidates-saved :
      (kb' : ℕ) (model : Str)
      → candidates n kb' model (saved_world kb n es s)
        ≡ candidates n kb' model s ++ filter (λ j. is_of kb' model j.row) (passages kb es)
  unfolding candidates
  candidates-saved kb' model =
      ap (filter (λ (j : Joined). is_of kb' model j.row)) saved.joined
      ∙ filter-append (λ (j : Joined). is_of kb' model j.row) (join n s.vectors s.embeddings)
          (passages kb es)

  pub saved-IsFormed : IsFormed (saved_world kb n es s)
  saved-IsFormed = saved.formed

pub save_many-saved :
    (kb n dimensions : ℕ) (es : List EmbeddingAggregate) (s : World)
    → table_for dimensions ≡ ok n
    → all_owned s.documents.documents s.documents.chunks (map (stamp kb) es) ≡ true
    → IsFormed s
    → AreFresh s.embeddings (map (stamp kb) es)
    → save_many es dimensions (some kb) s ≡ (ok tt, saved_world kb n es s)
unfolding save_many require
save_many-saved kb n dimensions [] s table owned formed fresh =
    rw (append-nil s.embeddings, append-nil s.vectors) refl
save_many-saved kb n dimensions (a ∷ es) s table owned formed fresh =
    rw table (insert-saved kb n dimensions (a ∷ es) s table owned formed fresh)

-- A deletion of rows.
pub candidates-delete :
    (p : Embedding → Bool) (n kb : ℕ) (model : Str) (s : World)
    → IsFormed s
    → candidates n kb model (delete_rows p s)
      ≡ filter (λ j. not (p j.row)) (candidates n kb model s)
unfolding candidates delete_rows
candidates-delete p n kb model s formed =
    ap (filter (λ (j : Joined). is_of kb model j.row))
      (join-delete p s.embeddings n s.vectors s.embeddings formed.sole)
    ∙ filter_comm (λ (j : Joined). is_of kb model j.row) (λ (j : Joined). not (p j.row))
        (join n s.vectors s.embeddings)

pub delete_rows-IsFormed :
    (p : Embedding → Bool) (s : World) → IsFormed s → IsFormed (delete_rows p s)
unfolding delete_rows
delete_rows-IsFormed p s formed = delete-IsWellFormed p s.embeddings s.vectors formed
