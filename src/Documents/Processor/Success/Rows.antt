-- ===== src/Documents/Processor/Success/Rows.antt =====
-- The rows of the pieces of a job, built and saved.
use shiori_api.Shared.{
  ℕ, suc, ◌≤◌, ◌≡◌, refl, sym, ◌∙◌, ap, true, false, Option, some, List, [], ◌∷◌, ◌++◌,
  append_assoc, append-nil, ◌==◌, arith, All, length,
}
use shiori_api.Tenancy.{ok, require}
use shiori_api.Chunking.{Piece}
use shiori_api.Documents.Aggregate.{Document, chunk_text}
use shiori_api.Documents.Store.{Chunk, Store, stamp_chunks, insert_chunks, save_chunks, save_all}
use shiori_api.Documents.Store.Lemmas.{IsRow, upsert-fresh, all_owned-row}
use shiori_api.Documents.Processor.{Worker, build_chunk, build_chunks, chunk_and_save}

module _ (w : Worker) (d : Document) where
  -- The row of a piece, under the n-th UUID, and the rows of the pieces from there on.
  abbrev pub row_for : ℕ → Piece → Chunk
  row_for n piece = record {
    id = w.uuid n;
    document_id = d.id;
    knowledge_base_id = d.knowledge_base_id;
    position = piece.position;
    text = piece.text;
    created_at = w.now;
    updated_at = w.now;
  }

  abbrev pub rows_for : ℕ → List Piece → List Chunk
  rows_for n [] = []
  rows_for n (piece ∷ pieces) = row_for n piece ∷ rows_for (suc n) pieces

  length-rows_for : (n : ℕ) (pieces : List Piece) → length (rows_for n pieces) ≡ length pieces
  length-rows_for n [] = refl
  length-rows_for n (piece ∷ pieces) = ap suc (length-rows_for (suc n) pieces)

  rows_for-owned :
      (n : ℕ) (pieces : List Piece) → All (λ c. c.document_id ≡ d.id) (rows_for n pieces)
  rows_for-owned n [] = tt
  rows_for-owned n (piece ∷ pieces) = (refl, rows_for-owned (suc n) pieces)

  stamp-rows_for :
      (n : ℕ) (pieces : List Piece)
      → stamp_chunks d.knowledge_base_id (rows_for n pieces) ≡ rows_for n pieces
  unfolding stamp_chunks
  stamp-rows_for n [] = refl
  stamp-rows_for n (piece ∷ pieces) =
      ap (λ rest. rows_for n (piece ∷ []) ++ rest) (stamp-rows_for (suc n) pieces)

  -- every text is one that ChunkTextValueObject takes
  abbrev pub AreTexts : List Piece → Type 0
  AreTexts pieces = All (λ (piece : Piece). w.kit.accepts chunk_text piece.text ≡ true) pieces

  pub build_chunks-rows_for :
      (n : ℕ) (pieces : List Piece) (kb : Option ℕ) (s : Store)
      → AreTexts pieces
      → build_chunks w d n pieces kb s ≡ (ok (rows_for n pieces), s)
  unfolding build_chunks build_chunk
  build_chunks-rows_for n [] kb s h = refl
  build_chunks-rows_for n (piece ∷ pieces) kb s (hp, h) =
      rw hp (rw (build_chunks-rows_for (suc n) pieces kb s h) refl)

  -- The UUIDs from the n-th on are not among the rows' primary keys.
  abbrev pub AreNew : ℕ → List Chunk → Type 0
  AreNew n rows = All (λ (c : Chunk). (m : ℕ) → n ≤ m → (c.id == w.uuid m) ≡ false) rows

  abbrev pub AreDistinct : Type 0
  AreDistinct = (n m : ℕ) → suc n ≤ m → (w.uuid n == w.uuid m) ≡ false

  later : (n : ℕ) (rows : List Chunk) → AreNew n rows → AreNew (suc n) rows
  later n [] h = tt
  later n (c ∷ rows) (hc, h) = ((λ m le. hc m (omega arith)), later n rows h)

  grown :
      (n : ℕ) (rows : List Chunk) (c : Chunk)
      → AreNew (suc n) rows
      → ((m : ℕ) → suc n ≤ m → (c.id == w.uuid m) ≡ false)
      → AreNew (suc n) (rows ++ c ∷ [])
  grown n [] c h hc = (hc, tt)
  grown n (x ∷ rows) c (hx, h) hc = (hx, grown n rows c h hc)

  fresh_first :
      (n : ℕ) (rows : List Chunk)
      → AreNew n rows
      → All (λ (x : Chunk). (x.id == w.uuid n) ≡ false) rows
  fresh_first n [] h = tt
  fresh_first n (c ∷ rows) (hc, h) = (hc n (omega arith), fresh_first n rows h)

  save_all-rows_for :
      (n : ℕ) (pieces : List Piece) (rows : List Chunk)
      → AreDistinct
      → AreNew n rows
      → save_all (rows_for n pieces) rows ≡ rows ++ rows_for n pieces
  unfolding save_all
  save_all-rows_for n [] rows distinct h = sym (append-nil rows)
  save_all-rows_for n (piece ∷ pieces) rows distinct h =
      let c = row_for n piece in
      ap (save_all (rows_for (suc n) pieces)) (upsert-fresh c rows (fresh_first n rows h))
      ∙ save_all-rows_for (suc n) pieces (rows ++ c ∷ []) distinct
          (grown n rows c (later n rows h) (λ m le. distinct n m le))
      ∙ append_assoc rows (c ∷ []) (rows_for (suc n) pieces)

  save_chunks-rows_for :
      (pieces : List Piece) (s : Store)
      → IsRow d s.documents
      → AreDistinct
      → AreNew 0 s.chunks
      → save_chunks (rows_for 0 pieces) (some d.knowledge_base_id) s
        ≡ (ok tt, record s { chunks = s.chunks ++ rows_for 0 pieces })
  unfolding save_chunks insert_chunks require
  save_chunks-rows_for [] s row distinct new =
      ap (λ rows. (ok tt, record s { chunks = rows })) (sym (append-nil s.chunks))
  save_chunks-rows_for (piece ∷ pieces) s row distinct new =
      let cs = rows_for 0 (piece ∷ pieces) in
      ap (λ rows. insert_chunks rows (some d.knowledge_base_id) s)
        (stamp-rows_for 0 (piece ∷ pieces))
      ∙ rw (all_owned-row d s.documents cs row (rows_for-owned 0 (piece ∷ pieces))) (
          ap (λ rows. (ok tt, record s { chunks = rows }))
            (save_all-rows_for 0 (piece ∷ pieces) s.chunks distinct new))

  pub chunk_and_save-rows_for :
      (pieces : List Piece) (s : Store)
      → IsRow d s.documents
      → w.strategy d.content ≡ ok pieces
      → AreTexts pieces
      → AreDistinct
      → AreNew 0 s.chunks
      → chunk_and_save w d (some d.knowledge_base_id) s
        ≡ (ok (length pieces), record s { chunks = s.chunks ++ rows_for 0 pieces })
  unfolding chunk_and_save
  chunk_and_save-rows_for pieces s row cut texts distinct new = rw cut (
      rw (build_chunks-rows_for 0 pieces (some d.knowledge_base_id) s texts)
        (rw (save_chunks-rows_for pieces s row distinct new) (rw (length-rows_for 0 pieces) refl)))
