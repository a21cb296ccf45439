-- ===== src/Chunking/Sentences/Dropped.antt =====
-- What the sentence pattern drops of a text.
use shiori_api.Shared.{
  ℕ, suc, ◌+◌, ◌≡◌, ap, ◌∙◌, All, true, false, none, List, [], ◌∷◌, ◌++◌, arith, Str, length, take,
  span, is_space, span-append, length-append,
}
use shiori_api.Chunking.{nonempty, is_terminator, match_sentence, match_all, or_text, sentences}
use shiori_api.Chunking.Sentences.{word, suc-add}

-- What the pattern drops: words whose terminators are followed by neither white space nor the end.
terminator_first : (c : ℕ) (s : Str) → is_terminator c ≡ true → match_sentence (c ∷ s) ≡ none
unfolding match_sentence
terminator_first c s e = rw (span_none c s e)
  where
    span_none : (c : ℕ) (s : Str) → is_terminator c ≡ true → span word (c ∷ s) ≡ ([], c ∷ s)
    span_none c s e = unfold span in rw e

skip_one :
    (fuel c : ℕ) (s : Str)
    → match_sentence (c ∷ s) ≡ none
    → match_all (suc fuel) (c ∷ s) ≡ match_all fuel s
unfolding match_all
skip_one fuel c s e = rw (e, match_all)

drop_terminators :
    (e x : Str) (fuel : ℕ)
    → All (λ c. is_terminator c ≡ true) e
    → match_all (length e + fuel) (e ++ x) ≡ match_all fuel x
drop_terminators [] x fuel h = ap (λ n. match_all n x) (omega arith)
drop_terminators (c ∷ e) x fuel (hc, h) =
    ap (λ n. match_all n (c ∷ e ++ x)) (suc-add (length e) fuel)
    ∙ (skip_one (length e + fuel) c (e ++ x) (terminator_first c (e ++ x) hc)
        ∙ drop_terminators e x fuel h)

-- words, a run of terminators, and a character that is neither a terminator nor white space
pub record IsUnspaced (w e x : Str) : Type 0 where
  pub worded : All (λ c. word c ≡ true) w
  pub terminated : All (λ c. is_terminator c ≡ true) e
  pub some_terminator : nonempty e ≡ true
  pub some_next : nonempty x ≡ true
  pub next_word : All (λ c. is_terminator c ≡ false) (take 1 x)
  pub next_ink : All (λ c. is_space c ≡ false) (take 1 x)

no_match :
    (d : ℕ) (w e x : Str)
    → word d ≡ true
    → IsUnspaced w e x
    → match_sentence (d ∷ w ++ (e ++ x)) ≡ none
unfolding match_sentence
no_match d w [] x hd u = cc (u.some_terminator)
no_match d w (t ∷ e) [] hd u = cc (u.some_next)
no_match d w (t ∷ e) (c ∷ x) hd u =
    rw (span-append word (d ∷ w) (e ++ c ∷ x) t (hd, u.worded) (ground (arith, u.terminated.0))) (
      rw (span-append is_terminator (t ∷ e) x c u.terminated u.next_word.0)
        (unfold span in ground (arith, u.next_ink.0)))

drop_words :
    (w e x : Str) (fuel : ℕ)
    → IsUnspaced w e x
    → match_all (length w + length e + fuel) (w ++ (e ++ x)) ≡ match_all fuel x
drop_words [] e x fuel u =
    ap (λ n. match_all n (e ++ x)) (omega arith) ∙ drop_terminators e x fuel u.terminated
drop_words (d ∷ w) e x fuel u =
    let v : IsUnspaced w e x = record {
      worded = u.worded.1;
      terminated = u.terminated;
      some_terminator = u.some_terminator;
      some_next = u.some_next;
      next_word = u.next_word;
      next_ink = u.next_ink;
    } in
    ap (λ n. match_all n (d ∷ w ++ (e ++ x))) (omega arith)
    ∙ (skip_one (length w + length e + fuel) d (w ++ (e ++ x)) (no_match d w e x u.worded.0 v)
        ∙ drop_words w e x fuel v)

-- A defect: words that end in terminators with no white space behind them, as the "Version 1." of
-- "Version 1.5 is out", are in no sentence: where the text behind them has a match, the sentences
-- of the whole are the sentences of that text.
pub sentences_drop_unspaced :
    (w e x m : Str) (ms : List Str)
    → IsUnspaced w e x
    → match_all (length x) x ≡ m ∷ ms
    → sentences (w ++ (e ++ x)) ≡ sentences x
unfolding sentences
sentences_drop_unspaced w e x m ms u h =
    let count : length (w ++ (e ++ x)) ≡ length w + length e + length x =
      omega (arith, length-append w (e ++ x), length-append e x) in
    let dropped : match_all (length (w ++ (e ++ x))) (w ++ (e ++ x)) ≡ m ∷ ms =
      ap (λ n. match_all n (w ++ (e ++ x))) count ∙ (drop_words w e x (length x) u ∙ h) in
    rw (dropped, h, or_text)
