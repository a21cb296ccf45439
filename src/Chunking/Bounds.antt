-- ===== src/Chunking/Bounds.antt =====
-- How long segments and chunks can get.
use shiori_api.Shared.{
  ℕ, zero, suc, ◌+◌, ◌-◌, ◌≤◌, ◌<◌, ◌≡◌, refl, true, false, inl, inr, List, [], ◌∷◌, ◌++◌, arith,
  Str, length, drop, concat, filter, All, All-append, take-append-drop, length-take-le, length-drop,
  length-append, Bool-cases, leb→le, ltb→lt, ltb→ge, slice_last, trim, ap, sym, subst, ltb, leb,
}
use shiori_api.Chunking.{
  Piece, Outcome, chunked, too_many, target_chunk_size, chunk_overlap, split_by_char_from,
  split_by_char, cap_each, split_by_sentence, split_paragraph, split_into_segments, merge_from,
  merge_segments, number_from, chunk, join_sentences, sentences, extend, closes, has_text,
  split_lines, split_paragraphs,
}

abbrev pub Fits : Str → Type 0
Fits s = length s ≤ target_chunk_size

split_by_char_from-Fits : (fuel : ℕ) (s : Str) → All Fits (split_by_char_from fuel s)
unfolding split_by_char_from
split_by_char_from-Fits zero s = tt
split_by_char_from-Fits (suc fuel) [] = tt
split_by_char_from-Fits (suc fuel) (c ∷ s) =
    (length-take-le 1000 (c ∷ s), split_by_char_from-Fits fuel (drop 1000 (c ∷ s)))

concat-split_by_char_from :
    (fuel : ℕ) (s : Str) → length s ≤ fuel → concat (split_by_char_from fuel s) ≡ s
unfolding split_by_char_from
concat-split_by_char_from zero [] h = refl
concat-split_by_char_from zero (c ∷ s) h = absurd (omega arith)
concat-split_by_char_from (suc fuel) [] h = refl
concat-split_by_char_from (suc fuel) (c ∷ s) h =
    rw
      (concat-split_by_char_from fuel (drop 1000 (c ∷ s)) (omega (arith, length-drop 1000 (c ∷ s))))
      (take-append-drop 1000 (c ∷ s))

-- Cutting a text every 1000 characters loses nothing, and every piece fits the target size.
pub split_by_char_lossless : (s : Str) → (concat (split_by_char s) ≡ s) × All Fits (split_by_char s)
unfolding split_by_char
split_by_char_lossless s =
    (concat-split_by_char_from (length s) s (omega arith), split_by_char_from-Fits (length s) s)

cap_each-Fits :
    (split : Str → List Str)
    → ((x : Str) → All Fits (split x))
    → (xs : List Str) → All Fits (cap_each split xs)
unfolding cap_each
cap_each-Fits split h [] = tt
cap_each-Fits split h (x ∷ xs) = elim (Bool-cases (leb (length x) target_chunk_size)) [
  | inl e ↦ rw e (leb→le _ _ e, cap_each-Fits split h xs)
  | inr e ↦ rw e (All-append Fits (split x) (cap_each split xs) (h x) (cap_each-Fits split h xs))
]

split_by_sentence-Fits : (s : Str) → All Fits (split_by_sentence s)
unfolding split_by_sentence
split_by_sentence-Fits s =
    cap_each-Fits split_by_char (λ x. (split_by_char_lossless x).1)
      (join_sentences [] (sentences s))

split_paragraph-Fits : (s : Str) → All Fits (split_paragraph s)
unfolding split_paragraph
split_paragraph-Fits s =
    let lines = filter has_text (split_lines s) in
    elim (Bool-cases (ltb 1 (length lines))) [
      | inl e ↦ rw e (cap_each-Fits split_by_sentence split_by_sentence-Fits lines)
      | inr e ↦ rw e (split_by_sentence-Fits s)
    ]

pub split_into_segments-Fits : (s : Str) → All Fits (split_into_segments s)
unfolding split_into_segments
split_into_segments-Fits s =
    cap_each-Fits split_paragraph split_paragraph-Fits (filter has_text (split_paragraphs 0 s))

-- A chunk is never empty; overlap, separator and one more segment bound its length.
abbrev pub IsBounded : Str → Type 0
IsBounded s = (0 < length s) × (length s ≤ target_chunk_size + chunk_overlap + 2)

module _ (current s : Str) (ss : List Str) where
  pub merge_closes :
      closes current (extend current s) ≡ true
      → merge_from current (s ∷ ss)
        ≡ current ∷ merge_from (slice_last chunk_overlap current ++ 10 ∷ 10 ∷ s) ss
  unfolding merge_from
  merge_closes e = rw (e, merge_from)

  pub merge_extends :
      closes current (extend current s) ≡ false
      → merge_from current (s ∷ ss) ≡ merge_from (extend current s) ss
  unfolding merge_from
  merge_extends e = rw (e, merge_from)

extend_bound :
    (current s : Str)
    → Fits s
    → closes current (extend current s) ≡ false
    → length (extend current s) ≤ 1000
unfolding closes extend
extend_bound current s hs e = ground arith

overlap_bound : (current s : Str) → Fits s → length (slice_last 150 current ++ 10 ∷ 10 ∷ s) ≤ 1152
overlap_bound current s hs = omega (
  arith,
  length-append (slice_last 150 current) (10 ∷ 10 ∷ s),
  length-drop (length current - 150) current,
)

closes_pos : (a b : Str) → closes a b ≡ true → 0 < length a
unfolding closes
closes_pos [] b e = ground arith
closes_pos (c ∷ a) b e = omega arith

merge_from-IsBounded :
    (current : Str) (segments : List Str)
    → length current ≤ 1152
    → All Fits segments
    → All IsBounded (merge_from current segments)
merge_from-IsBounded [] [] h _ = unfold merge_from in tt
merge_from-IsBounded (c ∷ current) [] h _ = unfold merge_from in ((omega arith, h), tt)
merge_from-IsBounded current (s ∷ ss) h (hs, hss) =
    elim (Bool-cases (closes current (extend current s))) [
      | inl e ↦ subst (All IsBounded) (sym (merge_closes current s ss e)) (
        (closes_pos current _ e, h),
        merge_from-IsBounded (slice_last 150 current ++ 10 ∷ 10 ∷ s) ss (overlap_bound current s hs)
            hss,
      )
      | inr e ↦
          let b : length (extend current s) ≤ 1152 = omega (arith, extend_bound current s hs e) in
          subst (All IsBounded) (sym (merge_extends current s ss e))
            (merge_from-IsBounded (extend current s) ss b hss)
    ]

merge_segments-IsBounded :
    (content : Str) → All IsBounded (merge_segments (split_into_segments content))
unfolding merge_segments
merge_segments-IsBounded content =
    merge_from-IsBounded [] (split_into_segments content) (omega arith)
      (split_into_segments-Fits content)

-- The texts of the chunks are the merged texts, and their positions count up from `i`.
abbrev pub Numbered : ℕ → List Piece → Type 0
Numbered i [] = Unit
Numbered i (p ∷ ps) = (p.position ≡ i) × Numbered (i + 1) ps

number_from_lem :
    (i : ℕ) (texts : List Str)
    → All IsBounded texts
    → All (λ p. IsBounded p.text) (number_from i texts)
      × Numbered i (number_from i texts)
      × (length (number_from i texts) ≡ length texts)
unfolding number_from
number_from_lem i [] h = (tt, tt, refl)
number_from_lem i (t ∷ ts) (ht, hts) =
    let (a, b, c) = number_from_lem (i + 1) ts hts in ((ht, a), (refl, b), ap suc c)

-- what chunking may give under a limit
abbrev pub IsAllowed : ℕ → Outcome → Type 0
IsAllowed max_chunks (chunked ps) =
    All (λ p. IsBounded p.text) ps × Numbered 0 ps × (length ps ≤ max_chunks)
IsAllowed max_chunks (too_many n m) = (max_chunks < n) × (m ≡ max_chunks)

-- Whatever the content, chunking ends in one of two ways. Either it gives at most `max_chunks`
-- chunks, each of 1 to 1152 characters, with positions 0, 1, 2 and so on; or it reports a count
-- above `max_chunks`, together with that limit.
pub chunk-IsAllowed :
    (max_chunks : ℕ) (content : Str) → IsAllowed max_chunks (chunk max_chunks content)
unfolding chunk
chunk-IsAllowed max_chunks content =
    let merged = merge_segments (split_into_segments (trim content)) in
    let (a, b, c) = number_from_lem 0 merged (merge_segments-IsBounded (trim content)) in
    elim (Bool-cases (ltb max_chunks (length merged))) [
      | inl e ↦ rw e (ltb→lt _ _ e, refl)
      | inr e ↦ rw e (a, b, omega (arith, c, ltb→ge _ _ e))
    ]
