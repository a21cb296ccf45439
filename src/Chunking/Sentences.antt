-- ===== src/Chunking/Sentences.antt =====
-- What `splitBySentence` keeps of a text.
pub mod Dropped
use shiori_api.Shared.{
  ℕ, zero, suc, ◌+◌, ◌≤◌, ◌<◌, ◌≡◌, refl, sym, ap, ◌∙◌, ◌⊎◌, All, Bool, true, false, not, ◌&&◌,
  ◌||◌, inl, inr, none, some, List, [], ◌∷◌, ◌++◌, append_assoc, append-nil, arith, Str, length,
  take, concat, span, append-span, length-span, is_space, ink, ink-append, ink-trim, ink_of_blank,
  ink-nil, span-append, trim, Bool-cases, leb, length-append, concat-append, if◌then◌else◌,
}
use shiori_api.Chunking.{
  nonempty, has_text, is_terminator, match_sentence, match_all, or_text, sentences, join_sentences,
  closes_sentence, cap_each, split_by_char, split_by_sentence, target_chunk_size,
}
use shiori_api.Chunking.Bounds.{split_by_char_lossless}

-- Where a reader of the text stands: before a sentence, in its words, in its terminators, or in the
-- white space behind those.
pub data Place : Type 0 where
  start words ends gap : Place

-- Every sentence has words before its terminators, and white space or the end behind them.
unfoldable pub is_punctuated : Place → Str → Bool
is_punctuated place [] = true
is_punctuated start (c ∷ s) = not (is_terminator c) && is_punctuated words s
is_punctuated words (c ∷ s) = is_punctuated (if is_terminator c then ends else words) s
is_punctuated ends (c ∷ s) =
    (is_terminator c || is_space c) && is_punctuated (if is_terminator c then ends else gap) s
is_punctuated gap (c ∷ s) =
    not (is_terminator c) && is_punctuated (if is_space c then gap else words) s

abbrev pub word : ℕ → Bool
word c = not (is_terminator c)

pub suc-add : (a b : ℕ) → suc a + b ≡ suc (a + b)
suc-add a b = omega arith

abbrev IsBehind : Str → Type 0
IsBehind u =
    (u ≡ [])
    ⊎ ((nonempty (span is_space u).0 ≡ true) × (is_punctuated start (span is_space u).1 ≡ true))

behind_gap : (s : Str) → is_punctuated gap s ≡ true → is_punctuated start (span is_space s).1 ≡ true
unfolding is_punctuated span
behind_gap [] h = refl
behind_gap (c ∷ s) h = ground (arith, behind_gap s)

IsBehind-ends : (s : Str) → is_punctuated ends s ≡ true → IsBehind (span is_terminator s).1
unfolding is_punctuated span
IsBehind-ends [] h = inl refl
IsBehind-ends (c ∷ s) h = elim (Bool-cases (is_terminator c)) [
  | inl e ↦ rw e (IsBehind-ends s (ground arith))
  | inr e ↦ elim (Bool-cases (is_space c)) [
    | inl sp ↦ rw (e, sp) (inr (refl, behind_gap s (ground arith)))
    | inr no_sp ↦ cc
  ]
]

IsBehind-words :
    (s : Str)
    → is_punctuated words s ≡ true
    → ((span word s).1 ≡ [])
      ⊎ ((nonempty (span is_terminator (span word s).1).0 ≡ true)
          × IsBehind (span is_terminator (span word s).1).1)
unfolding is_punctuated span
IsBehind-words [] h = inl refl
IsBehind-words (c ∷ s) h = elim (Bool-cases (is_terminator c)) [
  | inl e ↦ rw (e, e) (inr (refl, IsBehind-ends s (ground arith)))
  | inr e ↦ rw e (IsBehind-words s (ground arith))
]

-- What a match leaves, and that it is a prefix of the text.
record Match (s : Str) (m rest : Str) : Type 0 where
  found : match_sentence s ≡ some (m, rest)
  spells : m ++ rest ≡ s
  shorter : length rest < length s
  punctuated : is_punctuated start rest ≡ true

-- the rest of a split by `span`, read off the whole
join_span : (p : ℕ → Bool) (s t : Str) → (span p s).1 ≡ t → (span p s).0 ++ t ≡ s
join_span p s t e = ap (λ x. (span p s).0 ++ x) (sym e) ∙ append-span p s

last_sentence :
    (c : ℕ) (s : Str)
    → word c ≡ true
    → (span word s).1 ≡ []
    → Match (c ∷ s) (c ∷ (span word s).0) []
last_sentence c s w e = record {
  found = unfold match_sentence span in ground arith;
  spells = ap (λ x. c ∷ x) (join_span word s [] e);
  shorter = omega arith;
  punctuated = unfold is_punctuated in refl;
}

-- the parts of the sentence pattern behind the first character
abbrev behind_body : Str → Str
behind_body s = (span word s).1

abbrev terminators : Str → Str
terminators s = (span is_terminator (behind_body s)).0

abbrev behind_terminators : Str → Str
behind_terminators s = (span is_terminator (behind_body s)).1

abbrev spaces : Str → Str
spaces s = (span is_space (behind_terminators s)).0

abbrev behind_spaces : Str → Str
behind_spaces s = (span is_space (behind_terminators s)).1

inner_sentence :
    (c : ℕ) (s : Str)
    → word c ≡ true
    → nonempty (terminators s) ≡ true
    → IsBehind (behind_terminators s)
    → Match (c ∷ s) (c ∷ (span word s).0 ++ terminators s ++ spaces s) (behind_spaces s)
inner_sentence c s w full behind = record {
  found = unfold match_sentence span in ground arith;
  spells =
      ap (λ x. c ∷ x)
        (append_assoc ((span word s).0 ++ terminators s) (spaces s) (behind_spaces s)
          ∙ (append_assoc (span word s).0 (terminators s) (spaces s ++ behind_spaces s)
              ∙ (ap (λ x. (span word s).0 ++ (terminators s ++ x))
                    (append-span is_space (behind_terminators s))
                  ∙ (ap (λ x. (span word s).0 ++ x) (append-span is_terminator (behind_body s))
                      ∙ append-span word s))));
  shorter = omega (
    arith,
    length-span word s,
    length-span is_terminator (behind_body s),
    length-span is_space (behind_terminators s),
  );
  punctuated = unfold is_punctuated span in ground arith;
}

Match-of_punctuated :
    (c : ℕ) (s : Str)
    → is_punctuated start (c ∷ s) ≡ true
    → (m : Str) × (rest : Str) × Match (c ∷ s) m rest
Match-of_punctuated c s h =
    let w : word c ≡ true = unfold is_punctuated in ground arith in
    let t : is_punctuated words s ≡ true = unfold is_punctuated in ground arith in
    elim (IsBehind-words s t) [
      | inl e ↦ (_, _, last_sentence c s w e)
      | inr (full, behind) ↦ (_, _, inner_sentence c s w full behind)
    ]

concat-match_all :
    (fuel : ℕ) (s : Str)
    → length s ≤ fuel
    → is_punctuated start s ≡ true
    → concat (match_all fuel s) ≡ s
concat-match_all zero [] h p = unfold match_all in refl
concat-match_all zero (c ∷ s) h p = absurd (omega arith)
concat-match_all (suc fuel) [] h p = unfold match_all in refl
concat-match_all (suc fuel) (c ∷ s) h p =
    let (m, rest, k) = Match-of_punctuated c s p in
    found_next m rest k (concat-match_all fuel rest (omega (arith, k.shorter)) k.punctuated)
  where
    found_next :
        (m rest : Str)
        → Match (c ∷ s) m rest
        → concat (match_all fuel rest) ≡ rest
        → concat (match_all (suc fuel) (c ∷ s)) ≡ c ∷ s
    found_next m rest k ih =
        unfold match_all in rw (k.found, match_all) (ap (λ x. m ++ x) ih ∙ k.spells)

or_text-concat : (s : Str) (ms : List Str) → concat ms ≡ s → concat (or_text s ms) ≡ s
unfolding or_text
or_text-concat s [] e = append-nil s
or_text-concat s (m ∷ ms) e = e

-- The sentence pattern drops nothing of a punctuated text: its matches, one behind the other, are
-- the text.
pub concat-sentences : (s : Str) → is_punctuated start s ≡ true → concat (sentences s) ≡ s
unfolding sentences
concat-sentences s p =
    or_text-concat s (match_all (length s) s) (concat-match_all (length s) s (omega arith) p)

ink-has_text : (s : Str) → has_text s ≡ false → ink s ≡ []
unfolding has_text
ink-has_text s h = ink_of_blank s (blank (trim s) h)
  where
    blank : (t : Str) → nonempty t ≡ false → t ≡ []
    blank [] e = refl
    blank (c ∷ t) e = cc

ink-join_sentences :
    (current : Str) (ss : List Str)
    → ink (concat (join_sentences current ss)) ≡ ink (current ++ concat ss)
unfolding join_sentences
ink-join_sentences current [] = elim (Bool-cases (has_text current)) [
  | inl e ↦ rw e (
      ink-append (trim current) []
      ∙ (ap (λ x. x ++ ink []) (ink-trim current) ∙ sym (ink-append current [])))
  | inr e ↦ rw e (ink-nil ∙ sym (ap ink (append-nil current) ∙ ink-has_text current e))
]
ink-join_sentences current (s ∷ ss) = elim (Bool-cases (closes_sentence current s)) [
  | inl e ↦
      rw (e, join_sentences)
        (ink-append (trim current) (concat (join_sentences s ss))
          ∙ (ap (λ x. x ++ ink (concat (join_sentences s ss))) (ink-trim current)
              ∙ (ap (λ x. ink current ++ x) (ink-join_sentences s ss)
                  ∙ sym (ink-append current (s ++ concat ss)))))
  | inr e ↦
      rw (e, join_sentences)
        (ink-join_sentences (current ++ s) ss ∙ ap ink (append_assoc current s (concat ss)))
]

concat-cap_each :
    (split : Str → List Str)
    → ((x : Str) → concat (split x) ≡ x)
    → (xs : List Str) → concat (cap_each split xs) ≡ concat xs
unfolding cap_each
concat-cap_each split h [] = refl
concat-cap_each split h (x ∷ xs) = elim (Bool-cases (leb (length x) target_chunk_size)) [
  | inl e ↦ rw e (ap (λ y. x ++ y) (concat-cap_each split h xs))
  | inr e ↦ rw e (
      concat-append (split x) (cap_each split xs)
      ∙ (ap (λ y. y ++ concat (cap_each split xs)) (h x)
          ∙ ap (λ y. x ++ y) (concat-cap_each split h xs)))
]

-- Splitting a punctuated text by sentences drops white space only.
pub ink-split_by_sentence :
    (s : Str) → is_punctuated start s ≡ true → ink (concat (split_by_sentence s)) ≡ ink s
unfolding split_by_sentence
ink-split_by_sentence s p =
    ap ink (
      concat-cap_each split_by_char (λ x. (split_by_char_lossless x).0)
        (join_sentences [] (sentences s)))
    ∙ (ink-join_sentences [] (sentences s) ∙ ap ink (concat-sentences s p))
