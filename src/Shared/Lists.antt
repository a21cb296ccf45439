-- ===== src/Shared/Lists.antt =====
-- Lists measured by native numbers, filtered by Boolean tests, and the predicates over them.
use Prim.Native.Nat.{ℕ, zero, suc, ◌+◌, ◌-◌, ◌≤◌}
use mathlib.Core.Path.{◌≡◌, refl, ap, sym, ◌∙◌}
use mathlib.Core.Bool.{Bool, true, false}
use mathlib.Core.List.{List, [], ◌∷◌, ◌++◌, append_assoc, map}
use mathlib.Core.Option.{Option, none, some}
use native.Mathlib.Omega.{arith}
use mathlib.Core.Logic.{inl, inr}
use shiori_api.Shared.Tests.{if◌then◌else◌, Bool-cases}

module _ {ℓ} {A : Type ℓ} where
  abbrev pub length : List A → ℕ
  length [] = 0
  length (x ∷ xs) = suc (length xs)

  abbrev pub take : ℕ → List A → List A
  take zero xs = []
  take (suc n) [] = []
  take (suc n) (x ∷ xs) = x ∷ take n xs

  abbrev pub drop : ℕ → List A → List A
  drop zero xs = xs
  drop (suc n) [] = []
  drop (suc n) (x ∷ xs) = drop n xs

  abbrev pub get_elem? : List A → ℕ → Option A
  get_elem? [] i = none
  get_elem? (x ∷ xs) zero = some x
  get_elem? (x ∷ xs) (suc i) = get_elem? xs i

  -- `xs.filter(p)`
  abbrev pub filter : (A → Bool) → List A → List A
  filter p [] = []
  filter p (x ∷ xs) = if p x then x ∷ filter p xs else filter p xs

  -- `xs.find(p)`
  abbrev pub find : (A → Bool) → List A → Option A
  find p [] = none
  find p (x ∷ xs) = if p x then some x else find p xs

  abbrev pub concat : List (List A) → List A
  concat [] = []
  concat (x ∷ xs) = x ++ concat xs

  pub length-append : (xs ys : List A) → length (xs ++ ys) ≡ length xs + length ys
  length-append [] ys = omega arith
  length-append (x ∷ xs) ys = omega (arith, length-append xs ys)

  pub length-take-le : (n : ℕ) (xs : List A) → length (take n xs) ≤ n
  length-take-le zero xs = omega arith
  length-take-le (suc n) [] = omega arith
  length-take-le (suc n) (x ∷ xs) = omega (arith, length-take-le n xs)

  pub length-drop : (n : ℕ) (xs : List A) → length (drop n xs) ≡ length xs - n
  length-drop zero xs = omega arith
  length-drop (suc n) [] = omega arith
  length-drop (suc n) (x ∷ xs) = omega (arith, length-drop n xs)

  pub take-append-drop : (n : ℕ) (xs : List A) → take n xs ++ drop n xs ≡ xs
  take-append-drop zero xs = refl
  take-append-drop (suc n) [] = refl
  take-append-drop (suc n) (x ∷ xs) = ap (λ t. x ∷ t) (take-append-drop n xs)

  pub concat-append : (xs ys : List (List A)) → concat (xs ++ ys) ≡ concat xs ++ concat ys
  concat-append [] ys = refl
  concat-append (x ∷ xs) ys = simp (concat-append xs ys, append_assoc)

  pub filter-append :
      (p : A → Bool) (xs ys : List A) → filter p (xs ++ ys) ≡ filter p xs ++ filter p ys
  filter-append p [] ys = refl
  filter-append p (x ∷ xs) ys = ground (arith, filter-append p xs ys)

-- A predicate on every element.
module _ {ℓ κ} {A : Type ℓ} (P : A → Type κ) where
  abbrev pub All : List A → Type κ
  All [] = Unit
  All (x ∷ xs) = P x × All xs

module _ {ℓ κ} {A : Type ℓ} (P : A → Type κ) where
  pub All-append : (xs ys : List A) → All P xs → All P ys → All P (xs ++ ys)
  All-append [] ys hx hy = hy
  All-append (x ∷ xs) ys (px, hx) hy = (px, All-append xs ys hx hy)

  pub All-filter : (p : A → Bool) (xs : List A) → All P xs → All P (filter p xs)
  All-filter p [] h = tt
  All-filter p (x ∷ xs) (px, hx) =
      elim (p x) as (λ b. All P (if b then x ∷ filter p xs else filter p xs)) [
        | true ↦ (px, All-filter p xs hx)
        | false ↦ All-filter p xs hx
      ]

module _ {ℓ} {A : Type ℓ} where
  pub drop-append : (n : ℕ) (xs ys : List A) → n ≤ length xs → drop n (xs ++ ys) ≡ drop n xs ++ ys
  drop-append zero xs ys h = refl
  drop-append (suc n) [] ys h = absurd (omega arith)
  drop-append (suc n) (x ∷ xs) ys h = drop-append n xs ys (omega arith)

  pub drop-length-append : (xs ys : List A) → drop (length xs) (xs ++ ys) ≡ ys
  drop-length-append [] ys = refl
  drop-length-append (x ∷ xs) ys = drop-length-append xs ys

pub filter_comm {ℓ} :
    {A : Type ℓ} (p q : A → Bool) (xs : List A) → filter p (filter q xs) ≡ filter q (filter p xs)
filter_comm p q [] = refl
filter_comm p q (x ∷ xs) = ground (arith, filter_comm p q xs)

-- a filter behind one that it implies, and behind one that excludes it
pub filter-filter {ℓ} :
    {A : Type ℓ} (p q : A → Bool) (xs : List A)
    → ((x : A) → p x ≡ true → q x ≡ true)
    → filter p (filter q xs) ≡ filter p xs
filter-filter p q [] h = refl
filter-filter p q (x ∷ xs) h = ground (arith, filter-filter p q xs h, h x)

pub filter-filter-none {ℓ} :
    {A : Type ℓ} (p q : A → Bool) (xs : List A)
    → ((x : A) → p x ≡ true → q x ≡ false)
    → filter p (filter q xs) ≡ []
filter-filter-none p q [] h = refl
filter-filter-none p q (x ∷ xs) h = ground (arith, filter-filter-none p q xs h, h x)

pub All-map {ℓ κ μ} :
    {A : Type ℓ} {P : A → Type κ} {Q : A → Type μ}
    → ((x : A) → P x → Q x)
    → (xs : List A) → All P xs
    → All Q xs
All-map f [] h = tt
All-map f (x ∷ xs) (hx, h) = (f x hx, All-map f xs h)

first {ℓ} : {A : Type ℓ} → A → List A → A
first a [] = a
first a (x ∷ xs) = x

-- The first of a list is the one that a filter keeps, or is not kept.
pub data SoleCases {ℓ} {A : Type ℓ} (p : A → Bool) (a x : A) (xs : List A) : Type ℓ where
  is_sole : p x ≡ true → x ≡ a → filter p xs ≡ [] → SoleCases p a x xs
  is_other : p x ≡ false → filter p xs ≡ a ∷ [] → SoleCases p a x xs

pub sole-cases {ℓ} :
    {A : Type ℓ} (p : A → Bool) (a x : A) (xs : List A)
    → filter p (x ∷ xs) ≡ a ∷ []
    → SoleCases p a x xs
unfolding first
sole-cases p a x xs h = elim (Bool-cases (p x)) [
  | inl e ↦ is_sole e (ap (first a) (rw e at h)) (ap (drop 1) (rw e at h))
  | inr e ↦ is_other e (rw e at h)
]

pub find-none_of_filter {ℓ} :
    {A : Type ℓ} (p : A → Bool) (xs : List A) → filter p xs ≡ [] → find p xs ≡ none
find-none_of_filter p [] h = refl
find-none_of_filter p (x ∷ xs) h = elim (Bool-cases (p x)) [
  | inl e ↦ rw e (ap (find (λ y. true)) (rw e at h))
  | inr e ↦ rw e (find-none_of_filter p xs (rw e at h))
]

pub find-sole {ℓ} :
    {A : Type ℓ} (p : A → Bool) (a : A) (xs : List A) → filter p xs ≡ a ∷ [] → find p xs ≡ some a
find-sole p a [] h = ap (find (λ y. true)) h
find-sole p a (x ∷ xs) h = elim (sole-cases p a x xs h) [
  | is_sole e same none' ↦ rw e (ap some same)
  | is_other e rest ↦ rw e (find-sole p a xs rest)
]

pub sole-holds {ℓ} :
    {A : Type ℓ} (p : A → Bool) (a : A) (xs : List A) → filter p xs ≡ a ∷ [] → p a ≡ true
sole-holds p a [] h = ground arith
sole-holds p a (x ∷ xs) h = elim (sole-cases p a x xs h) [
  | is_sole e same none' ↦ sym (ap p same) ∙ e
  | is_other e rest ↦ sole-holds p a xs rest
]

pub filter-holds {ℓ} :
    {A : Type ℓ} (p : A → Bool) (xs : List A) → All (λ x. p x ≡ true) (filter p xs)
filter-holds p [] = tt
filter-holds p (x ∷ xs) = elim (Bool-cases (p x)) [
  | inl e ↦ rw e (e, filter-holds p xs)
  | inr e ↦ rw e (filter-holds p xs)
]

pub All-filter_and {ℓ κ} :
    {A : Type ℓ} {P : A → Type κ} {Q : A → Type κ} (p : A → Bool)
    → ((x : A) → p x ≡ true → P x → Q x)
    → (xs : List A) → All P xs
    → All Q (filter p xs)
All-filter_and p f [] h = tt
All-filter_and {Q = Q} p f (x ∷ xs) (hx, h) = elim (Bool-cases (p x)) [
  | inl e ↦ rw e (f x e hx, All-filter_and p f xs h)
  | inr e ↦ rw e (All-filter_and p f xs h)
]

pub filter-none {ℓ} :
    {A : Type ℓ} (p : A → Bool) (xs : List A) → All (λ x. p x ≡ false) xs → filter p xs ≡ []
filter-none p [] h = refl
filter-none p (x ∷ xs) (hx, h) = rw hx (filter-none p xs h)

pub All-map2 {ℓ κ} :
    {A : Type ℓ} {P Q R : A → Type κ}
    → ((x : A) → P x → Q x → R x)
    → (xs : List A) → All P xs
    → All Q xs
    → All R xs
All-map2 f [] hp hq = tt
All-map2 f (x ∷ xs) (px, hp) (qx, hq) = (f x px qx, All-map2 f xs hp hq)

pub filter-All {ℓ} :
    {A : Type ℓ} (p : A → Bool) (xs : List A) → All (λ x. p x ≡ true) xs → filter p xs ≡ xs
filter-All p [] h = refl
filter-All p (x ∷ xs) (hx, h) = rw hx (ap (λ l. x ∷ l) (filter-All p xs h))

pub map-All {ℓ κ} :
    {A B : Type ℓ} (P : B → Type κ) (f : A → B) (xs : List A)
    → All (λ x. P (f x)) xs
    → All P (map f xs)
map-All P f [] h = tt
map-All P f (x ∷ xs) (hx, h) = (hx, map-All P f xs h)

pub All-intro {ℓ κ} : {A : Type ℓ} {P : A → Type κ} → ((x : A) → P x) → (xs : List A) → All P xs
All-intro f [] = tt
All-intro f (x ∷ xs) = (f x, All-intro f xs)
