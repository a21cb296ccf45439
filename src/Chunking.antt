-- ===== src/Chunking.antt =====
-- RecursiveChunkingService (src/contexts/documents/infrastructure/services/recursive-chunking.service.ts).
-- A regular expression of the source is a function of its own over the code units: `/\n{2,}/` is
-- `split_paragraphs`, `/\n/` is `split_lines`, and `/[^.!?]+[.!?]+(\s+|$)|[^.!?]+$/g` is
-- `match_sentence`, tried from left to right by `match_all`.
pub mod Bounds
pub mod Merge
pub mod Sentences
pub mod Tests
use shiori_api.Shared.{
  ℕ, zero, suc, ◌+◌, ◌≡◌, Bool, true, false, not, ◌&&◌, ◌||◌, Option, none, some, List, [], ◌∷◌,
  ◌++◌, Str, length, take, drop, filter, span, trim, is_space, slice_last, ltb, leb, ◌==◌,
  if◌then◌else◌,
}

abbrev pub target_chunk_size : ℕ
target_chunk_size = 1000

abbrev pub chunk_overlap : ℕ
chunk_overlap = 150

abbrev newline : ℕ
newline = 10

-- Application-level chunk, before it is stored (`IChunk` of the port).
pub record Piece : Type 0 where
  pub text : Str
  pub position : ℕ

-- The result of `chunk`: the chunks, or DocumentTooManyChunksException(count, max).
pub data Outcome : Type 0 where
  chunked : List Piece → Outcome
  too_many : ℕ → ℕ → Outcome

-- `s.length > 0`
abbrev pub nonempty : Str → Bool
nonempty [] = false
nonempty (c ∷ s) = true

-- `s.trim().length > 0`
pub has_text : Str → Bool
has_text s = nonempty (trim s)

-- `text.slice(start, start + 1000)` from each start; the fuel is the text's length.
split_by_char_from : ℕ → Str → List Str
split_by_char_from zero text = []
split_by_char_from (suc fuel) [] = []
split_by_char_from (suc fuel) (c ∷ text) =
    take target_chunk_size (c ∷ text) ∷ split_by_char_from fuel (drop target_chunk_size (c ∷ text))

unfoldable pub split_by_char : Str → List Str
unfolding split_by_char_from
split_by_char text = split_by_char_from (length text) text

-- `xs.flatMap((x) => x.length <= TARGET ? [x] : split(x))`
pub cap_each : (Str → List Str) → List Str → List Str
cap_each split [] = []
cap_each split (x ∷ xs) =
    (if leb (length x) target_chunk_size then x ∷ [] else split x) ++ cap_each split xs

pub is_terminator : ℕ → Bool
is_terminator c = c == b'.' || c == b'!' || c == b'?'

-- The sentence pattern at the start of a text: what it matches, and the rest. Giving back part of
-- a greedy run never helps, since the run's next character is of the same class.
pub match_sentence : Str → Option (Str × Str)
match_sentence s =
    let body = span (λ c. not (is_terminator c)) s in
    let ends = span is_terminator body.1 in
    let gap = span is_space ends.1 in
    if not (nonempty body.0)
    then none
    else if nonempty ends.0 && (nonempty gap.0 || not (nonempty gap.1))
    then some (body.0 ++ ends.0 ++ gap.0, gap.1)
    else if not (nonempty body.1)
    then some (body.0, [])
    else none

-- `text.match(pattern)` with the flag g: where no match begins, the search moves on by one
-- character. Every match has a character, so the text's length is fuel enough.
pub match_all : ℕ → Str → List Str
match_all zero s = []
match_all (suc fuel) [] = []
match_all (suc fuel) (c ∷ s) = elim (match_sentence (c ∷ s)) [
  | none ↦ match_all fuel s
  | some (m, rest) ↦ m ∷ match_all fuel rest
]

-- `matches ?? [text]`: `match` returns null where nothing matches
pub or_text : Str → List Str → List Str
or_text text [] = text ∷ []
or_text text (m ∷ ms) = m ∷ ms

unfoldable pub sentences : Str → List Str
unfolding match_all match_sentence or_text span is_terminator
sentences text = or_text text (match_all (length text) text)

-- the sentences so far are closed before the next one
pub closes_sentence : Str → Str → Bool
closes_sentence current s = ltb target_chunk_size (length (current ++ s)) && nonempty current

-- The loop that joins sentences while they fit, from the text `current`.
pub join_sentences : Str → List Str → List Str
join_sentences current [] = if has_text current then trim current ∷ [] else []
join_sentences current (s ∷ ss) = elim (closes_sentence current s) [
  | true ↦ trim current ∷ join_sentences s ss
  | false ↦ join_sentences (current ++ s) ss
]

unfoldable pub split_by_sentence : Str → List Str
unfolding cap_each join_sentences closes_sentence has_text trim
split_by_sentence text = cap_each split_by_char (join_sentences [] (sentences text))

cons_first : ℕ → List Str → List Str
cons_first c [] = (c ∷ []) ∷ []
cons_first c (l ∷ ls) = (c ∷ l) ∷ ls

-- `s.split(/\n/)`
split_lines : Str → List Str
split_lines [] = [] ∷ []
split_lines (c ∷ s) = elim (c == newline) [
  | true ↦ [] ∷ split_lines s
  | false ↦ cons_first c (split_lines s)
]

-- Puts a run of `n` newlines in front: a separator from two on, text below that.
close_run : ℕ → List Str → List Str
close_run zero ps = ps
close_run (suc zero) ps = cons_first newline ps
close_run (suc (suc n)) ps = [] ∷ ps

-- `s.split(/\n{2,}/)`, with the newlines read since the last other character
split_paragraphs : ℕ → Str → List Str
split_paragraphs run [] = close_run run ([] ∷ [])
split_paragraphs run (c ∷ s) = elim (c == newline) [
  | true ↦ split_paragraphs (suc run) s
  | false ↦ close_run run (cons_first c (split_paragraphs 0 s))
]

unfoldable pub split_paragraph : Str → List Str
unfolding cap_each split_lines cons_first has_text trim
split_paragraph paragraph =
    let lines = filter has_text (split_lines paragraph) in
    if ltb 1 (length lines) then cap_each split_by_sentence lines else split_by_sentence paragraph

unfoldable pub split_into_segments : Str → List Str
unfolding cap_each split_paragraphs close_run cons_first has_text trim
split_into_segments content =
    cap_each split_paragraph (filter has_text (split_paragraphs 0 content))

-- `candidate` of the loop: the segment behind the chunk that is being filled, if there is one.
pub extend : Str → Str → Str
extend current segment =
    if nonempty current then current ++ newline ∷ newline ∷ segment else segment

-- the chunk that is being filled is closed before the segment
pub closes : Str → Str → Bool
closes current candidate = ltb target_chunk_size (length candidate) && nonempty current

-- The loop of `mergeSegments`, from the chunk `current` that is being filled.
pub merge_from : Str → List Str → List Str
merge_from current [] = if nonempty current then current ∷ [] else []
merge_from current (segment ∷ segments) = elim (closes current (extend current segment)) [
  | true ↦
      current
      ∷ merge_from (slice_last chunk_overlap current ++ newline ∷ newline ∷ segment) segments
  | false ↦ merge_from (extend current segment) segments
]

unfoldable pub merge_segments : List Str → List Str
unfolding merge_from extend closes
merge_segments segments = merge_from [] segments

number_from : ℕ → List Str → List Piece
number_from i [] = []
number_from i (text ∷ texts) = record { text = text; position = i } ∷ number_from (i + 1) texts

unfoldable pub chunk : ℕ → Str → Outcome
unfolding number_from trim
chunk max_chunks content =
    let merged = merge_segments (split_into_segments (trim content)) in
    if ltb max_chunks (length merged)
    then too_many (length merged) max_chunks
    else chunked (number_from 0 merged)
