-- ===== src/Chunking/Tests.antt =====
-- Runs of the chunking service, and its theorems at concrete inputs.
use shiori_api.Shared.{
  ℕ, zero, suc, ◌≡◌, refl, List, [], ◌∷◌, ◌++◌, Str, codes, concat, ink, is_space, span,
}
use shiori_api.Chunking.{
  chunked, too_many, chunk, split_into_segments, merge_segments, sentences, match_all,
  match_sentence, is_terminator, split_by_sentence,
}
use shiori_api.Chunking.Bounds.{IsAllowed, chunk-IsAllowed}
use shiori_api.Chunking.Merge.{reassemble, join_segments, reassemble-merge_segments}
use shiori_api.Chunking.Sentences.{is_punctuated, ink-split_by_sentence}
use shiori_api.Chunking.Sentences.Dropped.{IsUnspaced, sentences_drop_unspaced}

abbrev repeat : ℕ → ℕ → Str
repeat zero c = []
repeat (suc n) c = c ∷ repeat n c

-- two paragraphs stay one chunk while they fit
short_chunk :
    chunk 5 (codes "  Hi there.\n\n\nBye. ")
    ≡ chunked (record { text = codes "Hi there.\n\nBye."; position = 0 } ∷ [])
unfolding chunk merge_segments split_into_segments
short_chunk = refl

no_chunk : chunk 5 (codes " \n\n ") ≡ chunked []
unfolding chunk merge_segments split_into_segments
no_chunk = refl

blank_line_runs : split_into_segments (codes "a\n\n\n\nb\nc\n\n") ≡ codes "a" ∷ codes "b\nc" ∷ []
unfolding split_into_segments
blank_line_runs = refl

abbrev long_segments : List Str
long_segments = repeat 600 b'a' ∷ repeat 500 b'b' ∷ []

-- the second chunk begins with the last 150 characters of the first
overlap :
    merge_segments long_segments
    ≡ repeat 600 b'a' ∷ (repeat 150 b'a' ++ codes "\n\n" ++ repeat 500 b'b') ∷ []
unfolding merge_segments
overlap = refl

limit_reported : chunk 1 (repeat 600 b'a' ++ codes "\n\n" ++ repeat 500 b'b') ≡ too_many 2 1
unfolding chunk merge_segments split_into_segments
limit_reported = refl

three_sentences :
    sentences (codes "One. Two!  Three") ≡ codes "One. " ∷ codes "Two!  " ∷ codes "Three" ∷ []
unfolding sentences is_space
three_sentences = refl

-- the first words of the text are gone
decimal_dropped : sentences (codes "Version 1.5 is out. Ok") ≡ codes "5 is out. " ∷ codes "Ok" ∷ []
unfolding sentences is_space
decimal_dropped = refl

chunk-IsAllowed_example : IsAllowed 5 (chunk 5 (codes "Hi there.\n\nBye."))
chunk-IsAllowed_example = chunk-IsAllowed 5 (codes "Hi there.\n\nBye.")

reassemble-merge_segments_example :
    reassemble (merge_segments long_segments) ≡ join_segments long_segments
reassemble-merge_segments_example = reassemble-merge_segments long_segments (refl, (refl, tt))

ink-split_by_sentence_example :
    ink (concat (split_by_sentence (codes "One. Two!  Three"))) ≡ ink (codes "One. Two!  Three")
unfolding is_punctuated is_terminator is_space
ink-split_by_sentence_example = ink-split_by_sentence (codes "One. Two!  Three") refl

version_IsUnspaced : IsUnspaced (codes "Version 1") (codes ".") (codes "5 is out. Ok")
unfolding is_terminator is_space
version_IsUnspaced = record {
  worded = (refl, (refl, (refl, (refl, (refl, (refl, (refl, (refl, (refl, tt)))))))));
  terminated = (refl, tt);
  some_terminator = refl;
  some_next = refl;
  next_word = (refl, tt);
  next_ink = (refl, tt);
}

sentences_drop_unspaced_example :
    sentences (codes "Version 1.5 is out. Ok") ≡ sentences (codes "5 is out. Ok")
unfolding match_all match_sentence is_terminator is_space span
sentences_drop_unspaced_example =
    sentences_drop_unspaced (codes "Version 1") (codes ".") (codes "5 is out. Ok")
      (codes "5 is out. ") (codes "Ok" ∷ []) version_IsUnspaced refl
