-- ===== src/Shared/Sort.antt =====
-- Stable sorting by a key that is a number.
use Prim.Native.Nat.{ℕ, zero, suc, ◌+◌, ◌≤◌}
use mathlib.Core.Path.{◌≡◌, refl, ap, ◌∙◌, subst, sym}
use mathlib.Core.Bool.{Bool, true, false, ◌&&◌}
use mathlib.Core.List.{List, [], ◌∷◌, ◌++◌}
use mathlib.Core.Logic.{◌⊎◌, inl, inr}
use native.Mathlib.Omega.{arith}
use shiori_api.Shared.Tests.{Bool-cases, ltb, ltb→lt, ltb→ge}
use shiori_api.Shared.Lists.{
  length, filter, take, drop, All, filter-append, length-append, take-append-drop, length-take-le,
}

-- how many elements pass a test
abbrev pub count : {A : Type 0} → (A → Bool) → List A → ℕ
count p xs = length (filter p xs)

module _ {A : Type 0} (key : A → ℕ) where
  -- behind the elements with the same key
  unfoldable pub insert_by : A → List A → List A
  insert_by x [] = x ∷ []
  insert_by x (y ∷ ys) = elim (ltb (key x) (key y)) [
    | true ↦ x ∷ y ∷ ys
    | false ↦ y ∷ insert_by x ys
  ]

  insert_all : List A → List A → List A
  unfolding insert_by
  insert_all [] sorted = sorted
  insert_all (x ∷ xs) sorted = insert_all xs (insert_by x sorted)

  unfoldable pub sort_by : List A → List A
  unfolding insert_all
  sort_by xs = insert_all xs []

  -- in the order of the keys, from a bound on
  abbrev pub IsSortedFrom : ℕ → List A → Type 0
  IsSortedFrom n [] = Unit
  IsSortedFrom n (x ∷ xs) = (n ≤ key x) × IsSortedFrom (key x) xs

  insert_before :
      (x y : A) (ys : List A) → ltb (key x) (key y) ≡ true → insert_by x (y ∷ ys) ≡ x ∷ y ∷ ys
  unfolding insert_by
  insert_before x y ys e = rw (e, insert_by) refl

  insert_behind :
      (x y : A) (ys : List A)
      → ltb (key x) (key y) ≡ false
      → insert_by x (y ∷ ys) ≡ y ∷ insert_by x ys
  unfolding insert_by
  insert_behind x y ys e = rw (e, insert_by) refl

  insert_by-IsSortedFrom :
      (n : ℕ) (x : A) (xs : List A)
      → n ≤ key x
      → IsSortedFrom n xs
      → IsSortedFrom n (insert_by x xs)
  unfolding insert_by
  insert_by-IsSortedFrom n x [] le h = (le, tt)
  insert_by-IsSortedFrom n x (y ∷ ys) le (hy, h) = elim (Bool-cases (ltb (key x) (key y))) [
    | inl e ↦
        subst (IsSortedFrom n) (sym (insert_before x y ys e)) (le, (omega (arith, ltb→lt _ _ e), h))
    | inr e ↦
        subst (IsSortedFrom n) (sym (insert_behind x y ys e))
          (hy, insert_by-IsSortedFrom (key y) x ys (omega (arith, ltb→ge _ _ e)) h)
  ]

  insert_all-IsSortedFrom :
      (xs sorted : List A) → IsSortedFrom 0 sorted → IsSortedFrom 0 (insert_all xs sorted)
  unfolding insert_all
  insert_all-IsSortedFrom [] sorted h = h
  insert_all-IsSortedFrom (x ∷ xs) sorted h =
      insert_all-IsSortedFrom xs (insert_by x sorted)
        (insert_by-IsSortedFrom 0 x sorted (omega arith) h)

  pub sort_by-IsSortedFrom : (xs : List A) → IsSortedFrom 0 (sort_by xs)
  unfolding sort_by
  sort_by-IsSortedFrom xs = insert_all-IsSortedFrom xs [] tt

  count-cons :
      (p : A → Bool) (x : A) (xs ys : List A)
      → count p xs ≡ count p ys
      → count p (x ∷ xs) ≡ count p (x ∷ ys)
  count-cons p x xs ys h = ground (arith, h)

  count_swap : (p : A → Bool) (x y : A) (xs : List A) → count p (x ∷ y ∷ xs) ≡ count p (y ∷ x ∷ xs)
  count_swap p x y xs = ground arith

  count-insert_by :
      (p : A → Bool) (x : A) (xs : List A) → count p (insert_by x xs) ≡ count p (x ∷ xs)
  unfolding insert_by
  count-insert_by p x [] = refl
  count-insert_by p x (y ∷ ys) = elim (Bool-cases (ltb (key x) (key y))) [
    | inl e ↦ ap (count p) (insert_before x y ys e)
    | inr e ↦
        ap (count p) (insert_behind x y ys e)
        ∙ count-cons p y (insert_by x ys) (x ∷ ys) (count-insert_by p x ys)
        ∙ count_swap p y x ys
  ]

  count-insert_all :
      (p : A → Bool) (xs sorted : List A)
      → count p (insert_all xs sorted) ≡ count p xs + count p sorted
  unfolding insert_all
  count-insert_all p [] sorted = omega arith
  count-insert_all p (x ∷ xs) sorted =
      count-insert_all p xs (insert_by x sorted)
      ∙ ap (λ n. count p xs + n) (count-insert_by p x sorted)
      ∙ ground arith

  -- Sorting keeps the number of elements that pass a test.
  pub count-sort_by : (p : A → Bool) (xs : List A) → count p (sort_by xs) ≡ count p xs
  unfolding sort_by
  count-sort_by p xs = omega (arith, count-insert_all p xs [])

  -- what is before a place in the order is at most what is behind it
  above : (n : ℕ) (xs : List A) → IsSortedFrom n xs → All (λ y. n ≤ key y) xs
  above n [] h = tt
  above n (x ∷ xs) (hx, h) = (hx, lower n (key x) xs hx (above (key x) xs h))
    where
      lower : (n m : ℕ) (xs : List A) → n ≤ m → All (λ y. m ≤ key y) xs → All (λ y. n ≤ key y) xs
      lower n m [] le h = tt
      lower n m (x ∷ xs) le (hx, h) = (omega arith, lower n m xs le h)

  drop-All : (P : A → Type 0) (k : ℕ) (xs : List A) → All P xs → All P (drop k xs)
  drop-All P zero xs h = h
  drop-All P (suc k) [] h = tt
  drop-All P (suc k) (x ∷ xs) (hx, h) = drop-All P k xs h

  pub take-nearest :
      (n k : ℕ) (xs : List A)
      → IsSortedFrom n xs
      → All (λ x. All (λ y. key x ≤ key y) (drop k xs)) (take k xs)
  take-nearest n zero xs h = tt
  take-nearest n (suc k) [] h = tt
  take-nearest n (suc k) (x ∷ xs) (hx, h) =
      (drop-All (λ y. key x ≤ key y) k xs (above (key x) xs h), take-nearest (key x) k xs h)

  pub take-IsSortedFrom : (n k : ℕ) (xs : List A) → IsSortedFrom n xs → IsSortedFrom n (take k xs)
  take-IsSortedFrom n zero xs h = tt
  take-IsSortedFrom n (suc k) [] h = tt
  take-IsSortedFrom n (suc k) (x ∷ xs) (hx, h) = (hx, take-IsSortedFrom (key x) k xs h)

pub count-append :
    {A : Type 0} (p : A → Bool) (xs ys : List A) → count p (xs ++ ys) ≡ count p xs + count p ys
count-append p xs ys = ap length (filter-append p xs ys) ∙ length-append (filter p xs) (filter p ys)

module _ {A : Type 0} (key : A → ℕ) where
  -- `found` is a choice of at most `k` of `xs` with the least keys, in their order.
  pub record IsLeast (k : ℕ) (xs found : List A) : Type 0 where
    pub left : List A
    pub bounded : length found ≤ k
    pub full : (length found ≡ k) ⊎ (left ≡ [])
    pub sorted : IsSortedFrom key 0 found
    pub nearer : All (λ x. All (λ y. key x ≤ key y) left) found
    pub whole : (p : A → Bool) → count p found + count p left ≡ count p xs

  take-full : (k : ℕ) (xs : List A) → (length (take k xs) ≡ k) ⊎ (drop k xs ≡ [])
  take-full zero xs = inl refl
  take-full (suc k) [] = inr refl
  take-full (suc k) (x ∷ xs) = elim (take-full k xs) [ inl e ↦ inl (ap suc e) | inr e ↦ inr e ]

  -- the first of a list that is in the order of the keys
  pub take-IsLeast_sorted : (k : ℕ) (ys : List A) → IsSortedFrom key 0 ys → IsLeast k ys (take k ys)
  take-IsLeast_sorted k ys sorted = record {
    left = drop k ys;
    bounded = length-take-le k ys;
    full = take-full k ys;
    sorted = take-IsSortedFrom key 0 k ys sorted;
    nearer = take-nearest key 0 k ys sorted;
    whole =
        λ p. sym (count-append p (take k ys) (drop k ys)) ∙ ap (count p) (take-append-drop k ys);
  }

  lower-IsSortedFrom :
      (n m : ℕ) (xs : List A) → n ≤ m → IsSortedFrom key m xs → IsSortedFrom key n xs
  lower-IsSortedFrom n m [] le h = tt
  lower-IsSortedFrom n m (x ∷ xs) le (hx, h) = (omega arith, h)

  pub filter-IsSortedFrom :
      (p : A → Bool) (n : ℕ) (xs : List A)
      → IsSortedFrom key n xs
      → IsSortedFrom key n (filter p xs)
  filter-IsSortedFrom p n [] h = tt
  filter-IsSortedFrom p n (x ∷ xs) (hx, h) = elim (Bool-cases (p x)) [
    | inl e ↦ rw e (hx, filter-IsSortedFrom p (key x) xs h)
    | inr e ↦
        rw e (lower-IsSortedFrom n (key x) (filter p xs) hx (filter-IsSortedFrom p (key x) xs h))
  ]

  module _ (P : A → Type 0) where
    pub take-All : (k : ℕ) (xs : List A) → All P xs → All P (take k xs)
    take-All zero xs h = tt
    take-All (suc k) [] h = tt
    take-All (suc k) (x ∷ xs) (hx, h) = (hx, take-All k xs h)

-- the elements that pass two tests
pub count-filter :
    {A : Type 0} (p q : A → Bool) (xs : List A) → count p (filter q xs) ≡ count (λ x. q x && p x) xs
count-filter p q [] = refl
count-filter p q (x ∷ xs) = ground (arith, count-filter p q xs)
