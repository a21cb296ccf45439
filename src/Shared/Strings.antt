-- ===== src/Shared/Strings.antt =====
-- JavaScript strings as lists of UTF-16 code units, and the built-ins that the program calls.
use Prim.Native.Nat.{ℕ, suc, ◌+◌, ◌-◌, ◌≤◌}
use Prim.Native.Char.{code}
use Prim.Native.String.{String}
use mathlib.Core.Path.{◌≡◌, refl, sym, ap, ◌∙◌}
use mathlib.Core.Logic.{◌↔◌}
use mathlib.Core.Bool.{Bool, true, false, ◌&&◌, ◌||◌}
use mathlib.Core.List.{List, [], ◌∷◌, ◌++◌}
use native.Mathlib.Omega.{arith}
use shiori_api.Shared.Tests.{leb, ◌==◌, if◌then◌else◌}
use shiori_api.Shared.Lists.{length, drop, All}

abbrev pub Str : Type 0
Str = List ℕ

-- A literal; it is ASCII wherever the program has one.
abbrev pub codes : String → Str
codes String.[] = []
codes (String.◌∷◌ c s) = code c ∷ codes s

-- `a === b` on strings
abbrev pub str_eq : Str → Str → Bool
str_eq [] [] = true
str_eq [] (b ∷ bs) = false
str_eq (a ∷ as') [] = false
str_eq (a ∷ as') (b ∷ bs) = a == b && str_eq as' bs

-- WhiteSpace and LineTerminator of ECMAScript: what `trim` removes and `\s` matches
unfoldable pub is_space : ℕ → Bool
is_space c =
    (leb 9 c && leb c 13)
    || c == 32
    || c == 160
    || c == 0x1680
    || (leb 0x2000 c && leb c 0x200a)
    || c == 0x2028
    || c == 0x2029
    || c == 0x202f
    || c == 0x205f
    || c == 0x3000
    || c == 0xfeff

pub str_eq_refl : (a : Str) → str_eq a a ≡ true
str_eq_refl [] = refl
str_eq_refl (c ∷ a) = ground (arith, str_eq_refl a)

pub str_eq_sound : (a b : Str) → str_eq a b ≡ true → a ≡ b
str_eq_sound [] [] h = refl
str_eq_sound [] (c ∷ b) h = cc
str_eq_sound (c ∷ a) [] h = cc
str_eq_sound (c ∷ a) (d ∷ b) h = ground (arith, str_eq_sound a b)

pub str_eq_iff : (a b : Str) → (str_eq a b ≡ true) ↔ (a ≡ b)
str_eq_iff a b = (str_eq_sound a b, λ e. rw e (str_eq_refl b))

-- The longest prefix whose code units pass the test, and what follows it.
unfoldable pub span : (ℕ → Bool) → Str → Str × Str
span p [] = ([], [])
span p (c ∷ s) = let r = span p s in if p c then (c ∷ r.0, r.1) else ([], c ∷ s)

pub trim_start : Str → Str
trim_start [] = []
trim_start (c ∷ s) = if is_space c then trim_start s else c ∷ s

keep_before : ℕ → Str → Str
keep_before c [] = if is_space c then [] else c ∷ []
keep_before c (d ∷ t) = c ∷ d ∷ t

pub trim_end : Str → Str
unfolding keep_before
trim_end [] = []
trim_end (c ∷ s) = keep_before c (trim_end s)

-- `s.trim()`
unfoldable pub trim : Str → Str
unfolding trim_start trim_end is_space
trim s = trim_end (trim_start s)

-- `s.slice(-n)`, for a positive n
abbrev pub slice_last : ℕ → Str → Str
slice_last n s = drop (length s - n) s

length-keep_before-le : (c : ℕ) (s : Str) → length (keep_before c s) ≤ suc (length s)
unfolding keep_before
length-keep_before-le c [] = ground arith
length-keep_before-le c (d ∷ t) = omega arith

length-trim_end-le : (s : Str) → length (trim_end s) ≤ length s
unfolding trim_end
length-trim_end-le [] = omega arith
length-trim_end-le (c ∷ s) =
    omega (arith, length-keep_before-le c (trim_end s), length-trim_end-le s)

length-trim_start-le : (s : Str) → length (trim_start s) ≤ length s
unfolding trim_start
length-trim_start-le [] = omega arith
length-trim_start-le (c ∷ s) = ground (arith, length-trim_start-le s)

pub length-trim-le : (s : Str) → length (trim s) ≤ length s
unfolding trim
length-trim-le s = omega (arith, length-trim_end-le (trim_start s), length-trim_start-le s)

-- The code units that are not white space, in order.
unfoldable pub ink : Str → Str
ink [] = []
ink (c ∷ s) = if is_space c then ink s else c ∷ ink s

pub ink-append : (s t : Str) → ink (s ++ t) ≡ ink s ++ ink t
unfolding ink
ink-append [] t = refl
ink-append (c ∷ s) t = ground (arith, ink-append s t)

ink-trim_start : (s : Str) → ink (trim_start s) ≡ ink s
unfolding ink trim_start
ink-trim_start [] = refl
ink-trim_start (c ∷ s) = ground (arith, ink-trim_start s)

ink-keep_before : (c : ℕ) (s : Str) → ink (keep_before c s) ≡ ink (c ∷ s)
unfolding ink keep_before
ink-keep_before c [] = ground arith
ink-keep_before c (d ∷ t) = refl

ink-trim_end : (s : Str) → ink (trim_end s) ≡ ink s
unfolding trim_end ink
ink-trim_end [] = refl
ink-trim_end (c ∷ s) = ground (arith, ink-keep_before c (trim_end s), ink-trim_end s)

-- Trimming removes white space only.
pub ink-trim : (s : Str) → ink (trim s) ≡ ink s
unfolding trim
ink-trim s = ink-trim_end (trim_start s) ∙ ink-trim_start s

-- What trims to nothing has no ink.
pub ink_of_blank : (s : Str) → trim s ≡ [] → ink s ≡ []
ink_of_blank s h = sym (ink-trim s) ∙ ap ink h ∙ (unfold ink in refl)

trim_start_of_blank : (s : Str) → All (λ c. is_space c ≡ true) s → trim_start s ≡ []
unfolding trim_start
trim_start_of_blank [] h = refl
trim_start_of_blank (c ∷ s) (hc, h) = rw hc (trim_start_of_blank s h)

pub trim_of_blank : (s : Str) → All (λ c. is_space c ≡ true) s → trim s ≡ []
unfolding trim trim_end
trim_of_blank s h = rw (trim_start_of_blank s h) refl

module _ (p : ℕ → Bool) where
  pub append-span : (s : Str) → (span p s).0 ++ (span p s).1 ≡ s
  unfolding span
  append-span [] = refl
  append-span (c ∷ s) = ground (arith, append-span s)

  pub length-span : (s : Str) → length (span p s).0 + length (span p s).1 ≡ length s
  unfolding span
  length-span [] = refl
  length-span (c ∷ s) = ground (arith, length-span s)

  -- `span` stops at the first code unit that fails the test.
  pub span-append :
      (w r : Str) (c : ℕ) → All (λ d. p d ≡ true) w → p c ≡ false → span p (w ++ c ∷ r) ≡ (w, c ∷ r)
  unfolding span
  span-append [] r c h e = rw e
  span-append (d ∷ w) r c (hd, h) e = ground (arith, span-append w r c h e)

pub ink-nil : ink [] ≡ []
unfolding ink
ink-nil = refl
