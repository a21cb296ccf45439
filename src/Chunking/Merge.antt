-- ===== src/Chunking/Merge.antt =====
-- The merged chunks, with the overlaps taken out, spell the segments.
use shiori_api.Shared.{
  ℕ, ◌≤◌, ◌≡◌, refl, sym, ap, ◌∙◌, ◌≡⟨◌⟩◌, ◌∎, true, false, inl, inr, List, [], ◌∷◌, ◌++◌,
  append_assoc, arith, Str, length, drop, All, drop-append, drop-length-append, length-append,
  slice_last, Bool-cases,
}
use shiori_api.Chunking.{extend, closes, merge_from, merge_segments, nonempty}
use shiori_api.Chunking.Bounds.{merge_closes, merge_extends}

-- The chunks behind `last`, each without the overlap with the chunk before it.
abbrev pub without_overlap : Str → List Str → Str
without_overlap last [] = []
without_overlap last (c ∷ cs) = drop (length (slice_last 150 last)) c ++ without_overlap c cs

abbrev pub reassemble : List Str → Str
reassemble [] = []
reassemble (c ∷ cs) = c ++ without_overlap c cs

-- The segments, each behind an empty line.
abbrev pub behind_gaps : List Str → Str
behind_gaps [] = []
behind_gaps (s ∷ ss) = 10 ∷ 10 ∷ (s ++ behind_gaps ss)

abbrev pub join_segments : List Str → Str
join_segments [] = []
join_segments (s ∷ ss) = s ++ behind_gaps ss

extend_lem : (current s : Str) → nonempty current ≡ true → extend current s ≡ current ++ 10 ∷ 10 ∷ s
unfolding extend
extend_lem current s e = rw e

-- The first chunk that the loop gives begins with the chunk being filled.
first_chunk :
    (current : Str) (ss : List Str)
    → nonempty current ≡ true
    → (h : Str) × (t : List Str) × (merge_from current ss ≡ h ∷ t) × (length current ≤ length h)
first_chunk [] ss e = cc
first_chunk (c ∷ current) [] e = (c ∷ current, [], (unfold merge_from in refl), omega arith)
first_chunk (c ∷ current) (s ∷ ss) e =
    elim (Bool-cases (closes (c ∷ current) (extend (c ∷ current) s))) [
      | inl close ↦ (c ∷ current, _, merge_closes (c ∷ current) s ss close, omega arith)
      | inr more ↦
          let (h, t, p, q) = first_chunk (c ∷ current ++ 10 ∷ 10 ∷ s) ss refl in
          (
            h,
            t,
            merge_extends (c ∷ current) s ss more
                ∙ (ap (λ x. merge_from x ss) (extend_lem (c ∷ current) s refl) ∙ p),
            omega (arith, length-append current (10 ∷ 10 ∷ s)),
          )
    ]

without_overlap-eq-drop :
    (last h : Str) (t : List Str)
    → length (slice_last 150 last) ≤ length h
    → without_overlap last (h ∷ t) ≡ drop (length (slice_last 150 last)) (reassemble (h ∷ t))
without_overlap-eq-drop last h t q =
    sym (drop-append (length (slice_last 150 last)) h (without_overlap h t) q)

nonempty-append : (x y : Str) (c : ℕ) → nonempty (x ++ c ∷ y) ≡ true
nonempty-append [] y c = refl
nonempty-append (d ∷ x) y c = refl

-- The chunk that follows a closed one, without the overlap, goes on with the next segment.
behind_closed :
    (last s : Str) (ss : List Str) (m : List Str)
    → (h : Str) × (t : List Str) × (m ≡ h ∷ t)
      × (length (slice_last 150 last ++ 10 ∷ 10 ∷ s) ≤ length h)
    → reassemble m ≡ (slice_last 150 last ++ 10 ∷ 10 ∷ s) ++ behind_gaps ss
    → without_overlap last m ≡ 10 ∷ 10 ∷ (s ++ behind_gaps ss)
behind_closed last s ss m (h, t, p, q) e =
    without_overlap last m
    ≡⟨ ap (without_overlap last) p ⟩ without_overlap last (h ∷ t)
    ≡⟨ without_overlap-eq-drop last h t
        (omega (arith, q, length-append (slice_last 150 last) (10 ∷ 10 ∷ s))) ⟩
      drop n (reassemble (h ∷ t))
    ≡⟨ ap (λ x. drop n (reassemble x)) (sym p) ⟩ drop n (reassemble m)
    ≡⟨ ap (drop n) (e ∙ append_assoc (slice_last 150 last) (10 ∷ 10 ∷ s) (behind_gaps ss)) ⟩
      drop n (slice_last 150 last ++ (10 ∷ 10 ∷ s ++ behind_gaps ss))
    ≡⟨ drop-length-append (slice_last 150 last) _ ⟩ 10 ∷ 10 ∷ (s ++ behind_gaps ss) ∎
  where
    n : ℕ
    n = length (slice_last 150 last)

reassemble-merge_from :
    (current : Str) (ss : List Str)
    → nonempty current ≡ true
    → reassemble (merge_from current ss) ≡ current ++ behind_gaps ss
reassemble-merge_from [] ss e = cc
reassemble-merge_from (c ∷ current) [] e = unfold merge_from in refl
reassemble-merge_from (c ∷ current) (s ∷ ss) e =
    let cur : Str = c ∷ current in
    let next : Str = slice_last 150 cur ++ 10 ∷ 10 ∷ s in
    let full : nonempty next ≡ true = nonempty-append (slice_last 150 cur) (10 ∷ s) 10 in
    elim (Bool-cases (closes (c ∷ current) (extend (c ∷ current) s))) [
      | inl close ↦
          ap reassemble (merge_closes (c ∷ current) s ss close)
          ∙ ap (λ x. cur ++ x)
              (behind_closed cur s ss _ (first_chunk next ss full)
                (reassemble-merge_from (slice_last 150 (c ∷ current) ++ 10 ∷ 10 ∷ s) ss full))
      | inr more ↦
          ap reassemble (merge_extends (c ∷ current) s ss more)
          ∙ (ap (λ x. reassemble (merge_from x ss)) (extend_lem (c ∷ current) s refl)
              ∙ (reassemble-merge_from (c ∷ current ++ 10 ∷ 10 ∷ s) ss refl
                  ∙ append_assoc cur (10 ∷ 10 ∷ s) (behind_gaps ss)))
    ]

closes-nil : (s : Str) → closes [] s ≡ false
unfolding closes
closes-nil s = ground arith

-- Merging loses and reorders nothing: if no segment is empty, the chunks, each without its
-- overlap of at most 150 characters with the chunk before it, spell the segments joined by empty lines.
pub reassemble-merge_segments :
    (segments : List Str)
    → All (λ s. nonempty s ≡ true) segments
    → reassemble (merge_segments segments) ≡ join_segments segments
unfolding merge_segments
reassemble-merge_segments [] h = refl
reassemble-merge_segments (s ∷ ss) (hs, hss) =
    ap reassemble (merge_extends [] s ss (closes-nil _)) ∙ reassemble-merge_from s ss hs
