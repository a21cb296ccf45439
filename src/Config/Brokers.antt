-- ===== src/Config/Brokers.antt =====
-- Which texts name no broker.
use shiori_api.Shared.{
  ℕ, ◌≡◌, ◌↔◌, refl, Bool, true, false, ◌||◌, some, List, [], ◌∷◌, Str, ◌==◌, arith, filter, map,
  All, is_space, trim, ink, ink_of_blank, trim_of_blank, Bool-cases, inl, inr,
}
use shiori_api.Cors.{split_commas, cons_first, nonempty}
use shiori_api.Config.{parse_brokers}

abbrev pub is_separator : ℕ → Bool
is_separator c = c == b',' || is_space c

abbrev IsBlank : Str → Type 0
IsBlank s = All (λ c. is_space c ≡ true) s

ink-IsBlank : (s : Str) → ink s ≡ [] → IsBlank s
unfolding ink
ink-IsBlank [] h = tt
ink-IsBlank (c ∷ s) h = elim (Bool-cases (is_space c)) [
  | inl e ↦ (e, ink-IsBlank s (rw e at h))
  | inr e ↦ absurd (let c = rw e at h in ground arith)
]

trimmed-IsBlank : (s : Str) → nonempty (trim s) ≡ false → IsBlank s
trimmed-IsBlank s h = ink-IsBlank s (ink_of_blank s (empty (trim s) h))
  where
    empty : (t : Str) → nonempty t ≡ false → t ≡ []
    empty [] h = refl
    empty (c ∷ t) h = absurd (ground arith)

-- no piece of a text has a name
abbrev AreBlank : List Str → Type 0
AreBlank ps = All IsBlank ps

nothing-AreBlank : (ps : List Str) → filter nonempty (map trim ps) ≡ [] → AreBlank ps
nothing-AreBlank [] h = tt
nothing-AreBlank (p ∷ ps) h = elim (Bool-cases (nonempty (trim p))) [
  | inl e ↦ absurd (let c = rw e at h in ground arith)
  | inr e ↦ (trimmed-IsBlank p e, nothing-AreBlank ps (rw e at h))
]

AreBlank-nothing : (ps : List Str) → AreBlank ps → filter nonempty (map trim ps) ≡ []
AreBlank-nothing [] h = refl
AreBlank-nothing (p ∷ ps) (hp, h) = rw (trim_of_blank p hp) (AreBlank-nothing ps h)

abbrev pub OnlySeparators : Str → Type 0
OnlySeparators s = All (λ c. is_separator c ≡ true) s

space_is_separator : (c : ℕ) → is_space c ≡ true → is_separator c ≡ true
space_is_separator c h = ground arith

separators_of :
    (c : ℕ) (s : Str) (ps : List Str)
    → (AreBlank ps → OnlySeparators s)
    → AreBlank (cons_first c ps)
    → OnlySeparators (c ∷ s)
separators_of c s [] f ((hc, _), _) = (space_is_separator c hc, f tt)
separators_of c s (p ∷ ps) f ((hc, hp), h) = (space_is_separator c hc, f (hp, h))

split-OnlySeparators : (s : Str) → AreBlank (split_commas s) → OnlySeparators s
unfolding split_commas
split-OnlySeparators [] h = tt
split-OnlySeparators (c ∷ s) h = elim (Bool-cases (c == b',')) [
  | inl e ↦ (rw e refl, split-OnlySeparators s (rw (e, split_commas) at h).1)
  | inr e ↦ separators_of c s (split_commas s) (split-OnlySeparators s) (rw (e, split_commas) at h)
]

blank_of : (c : ℕ) (ps : List Str) → is_space c ≡ true → AreBlank ps → AreBlank (cons_first c ps)
blank_of c [] hc h = ((hc, tt), tt)
blank_of c (p ∷ ps) hc (hp, h) = ((hc, hp), h)

OnlySeparators-split : (s : Str) → OnlySeparators s → AreBlank (split_commas s)
unfolding split_commas
OnlySeparators-split [] h = (tt, tt)
OnlySeparators-split (c ∷ s) (hc, h) = elim (Bool-cases (c == b',')) [
  | inl e ↦ rw (e, split_commas) (tt, OnlySeparators-split s h)
  | inr e ↦
      rw (e, split_commas) (blank_of c (split_commas s) (rw e at hc) (OnlySeparators-split s h))
]

pub parse_brokers-nil : (raw : Str) → (parse_brokers (some raw) ≡ []) ↔ OnlySeparators raw
unfolding parse_brokers
parse_brokers-nil raw = (
  λ h. split-OnlySeparators raw (nothing-AreBlank (split_commas raw) h),
  λ h. AreBlank-nothing (split_commas raw) (OnlySeparators-split raw h),
)
