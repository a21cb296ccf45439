-- ===== src/AggregateMap/Outcome/Found.antt =====
-- What the loop over the declarations keeps: each class once, with its module, or a clash of two modules.
use shiori_api.Shared.{
  ◌≡◌, ◌≢◌, refl, sym, ◌∙◌, ap, subst, true, false, ◌⊎◌, inl, inr, Option, none, some, List, [],
  ◌∷◌, ◌++◌, append_assoc, append-nil, Str, str_eq, str_eq_iff, arith, All, All-append, All-map,
  if◌then◌else◌, Bool-cases,
}
use shiori_api.AggregateMap.{
  AggregateMapping, Collected, collected, ambiguous, get, set, clashes, or_empty, is_empty,
}
use shiori_api.AggregateMap.Declared.{add_all}

abbrev pub IsIn : AggregateMapping → List AggregateMapping → Type 0
IsIn m [] = ⊥
IsIn m (x ∷ xs) = (m ≡ x) ⊎ IsIn m xs

IsIn-left : (m : AggregateMapping) (xs ys : List AggregateMapping) → IsIn m xs → IsIn m (xs ++ ys)
IsIn-left m [] ys h = absurd h
IsIn-left m (x ∷ xs) ys (inl e) = inl e
IsIn-left m (x ∷ xs) ys (inr h) = inr (IsIn-left m xs ys h)

IsIn-last : (m : AggregateMapping) (xs : List AggregateMapping) → IsIn m (xs ++ m ∷ [])
IsIn-last m [] = inl refl
IsIn-last m (x ∷ xs) = inr (IsIn-last m xs)

IsIn-All :
    (P : AggregateMapping → Type 0) (m : AggregateMapping) (xs : List AggregateMapping)
    → All P xs
    → IsIn m xs
    → P m
IsIn-All P m [] h i = absurd i
IsIn-All P m (x ∷ xs) (hx, h) (inl e) = subst P (sym e) hx
IsIn-All P m (x ∷ xs) (hx, h) (inr i) = IsIn-All P m xs h i

-- no class twice
abbrev pub AreDistinct : List AggregateMapping → Type 0
AreDistinct [] = Unit
AreDistinct (m ∷ ms) = (get m.class_name ms ≡ none) × AreDistinct ms

-- what the entry of a class is
abbrev entry_of : Str → Str → AggregateMapping
entry_of name module_name = record { class_name = name; module_name = module_name }

entry-known :
    (m : AggregateMapping) (name module_name : Str)
    → str_eq m.class_name name ≡ true
    → some m.module_name ≡ some module_name
    → entry_of name module_name ≡ m
entry-known m name module_name e h =
    ap (λ n. entry_of n module_name) (sym ((str_eq_iff m.class_name name).0 e))
    ∙ ap (entry_of m.class_name) (sym (ap or_empty h))

get-IsIn :
    (name : Str) (ms : List AggregateMapping) (module_name : Str)
    → get name ms ≡ some module_name
    → IsIn (entry_of name module_name) ms
unfolding get
get-IsIn name [] module_name h = absurd (ground arith)
get-IsIn name (m ∷ ms) module_name h = elim (Bool-cases (str_eq m.class_name name)) [
  | inl e ↦ inl (entry-known m name module_name e (rw e at h))
  | inr e ↦ inr (get-IsIn name ms module_name (rw e at h))
]

set-known :
    (name : Str) (ms : List AggregateMapping) (module_name : Str)
    → get name ms ≡ some module_name
    → set (entry_of name module_name) ms ≡ ms
unfolding get set
set-known name [] module_name h = absurd (ground arith)
set-known name (m ∷ ms) module_name h = elim (Bool-cases (str_eq m.class_name name)) [
  | inl e ↦ rw e (ap (λ x. x ∷ ms) (entry-known m name module_name e (rw e at h)))
  | inr e ↦ rw e (ap (λ rest. m ∷ rest) (set-known name ms module_name (rw e at h)))
]

set-new :
    (m : AggregateMapping) (ms : List AggregateMapping)
    → get m.class_name ms ≡ none
    → set m ms ≡ ms ++ m ∷ []
unfolding get set
set-new m [] h = refl
set-new m (x ∷ ms) h = elim (Bool-cases (str_eq x.class_name m.class_name)) [
  | inl e ↦ absurd (let c = rw e at h in ground arith)
  | inr e ↦ rw e (ap (λ rest. x ∷ rest) (set-new m ms (rw e at h)))
]

get-append :
    (name : Str) (ms : List AggregateMapping) (m : AggregateMapping)
    → get name ms ≡ none
    → str_eq m.class_name name ≡ false
    → get name (ms ++ m ∷ []) ≡ none
unfolding get
get-append name [] m h ne = rw ne refl
get-append name (x ∷ ms) m h ne = elim (Bool-cases (str_eq x.class_name name)) [
  | inl e ↦ absurd (let c = rw e at h in ground arith)
  | inr e ↦ rw e (get-append name ms m (rw e at h) ne)
]

-- What the loop keeps, for the classes that it has seen.
pub record IsOf (seen acc : List AggregateMapping) : Type 0 where
  pub from : All (λ m. IsIn m seen) acc
  pub into : All (λ m. IsIn m acc) seen
  pub distinct : AreDistinct acc
  pub named : All (λ m. is_empty m.module_name ≡ false) acc

AreDistinct-append :
    (m : AggregateMapping) (ms : List AggregateMapping)
    → get m.class_name ms ≡ none
    → AreDistinct ms
    → AreDistinct (ms ++ m ∷ [])
unfolding get
AreDistinct-append m [] h d = (refl, tt)
AreDistinct-append m (x ∷ ms) h (first, d) = elim (Bool-cases (str_eq x.class_name m.class_name)) [
  | inl e ↦ absurd (let c = rw e at h in ground arith)
  | inr e ↦ (
    get-append x.class_name ms m first (str_eq_sym x.class_name m.class_name e),
    AreDistinct-append m ms (rw e at h) d,
  )
]
  where
    str_eq_sym : (a b : Str) → str_eq a b ≡ false → str_eq b a ≡ false
    str_eq_sym a b h = elim (Bool-cases (str_eq b a)) [
      | inl e ↦
          absurd (let c = sym h ∙ (str_eq_iff a b).1 (sym ((str_eq_iff b a).0 e)) in ground arith)
      | inr e ↦ e
    ]

IsOf-new :
    (m : AggregateMapping) (seen acc : List AggregateMapping)
    → IsOf seen acc
    → is_empty m.module_name ≡ false
    → get m.class_name acc ≡ none
    → IsOf (seen ++ m ∷ []) (acc ++ m ∷ [])
IsOf-new m seen acc h named new = record {
  from =
      All-append (λ x. IsIn x (seen ++ m ∷ [])) acc (m ∷ [])
        (All-map (λ x i. IsIn-left x seen (m ∷ []) i) acc h.from) (IsIn-last m seen, tt);
  into =
      All-append (λ x. IsIn x (acc ++ m ∷ [])) seen (m ∷ [])
        (All-map (λ x i. IsIn-left x acc (m ∷ []) i) seen h.into) (IsIn-last m acc, tt);
  distinct = AreDistinct-append m acc new h.distinct;
  named = All-append (λ x. is_empty x.module_name ≡ false) acc (m ∷ []) h.named (named, tt);
}

IsOf-known :
    (m : AggregateMapping) (seen acc : List AggregateMapping)
    → IsOf seen acc
    → get m.class_name acc ≡ some m.module_name
    → IsOf (seen ++ m ∷ []) acc
IsOf-known m seen acc h known = record {
  from = All-map (λ x i. IsIn-left x seen (m ∷ []) i) acc h.from;
  into =
      All-append (λ x. IsIn x acc) seen (m ∷ []) h.into
        (get-IsIn m.class_name acc m.module_name known, tt);
  distinct = h.distinct;
  named = h.named;
}

-- Two declarations of a class in modules of different names.
pub record IsClash (ds : List AggregateMapping) (name existing module_name : Str) : Type 0 where
  pub first : IsIn (entry_of name existing) ds
  pub second : IsIn (entry_of name module_name) ds
  pub differ : existing ≢ module_name

abbrev pub IsAdded : List AggregateMapping → Collected (List AggregateMapping) → Type 0
IsAdded ds (collected ms) = IsOf ds ms
IsAdded ds (ambiguous name existing module_name) = IsClash ds name existing module_name

str_eq-false : (a b : Str) → str_eq a b ≡ false → a ≢ b
str_eq-false a b h e = absurd (let c = sym h ∙ (str_eq_iff a b).1 e in ground arith)

IsIn-middle : (m : AggregateMapping) (xs ys : List AggregateMapping) → IsIn m (xs ++ m ∷ ys)
IsIn-middle m [] ys = inl refl
IsIn-middle m (x ∷ xs) ys = inr (IsIn-middle m xs ys)

-- one class, with what the loop has found for it
add-IsAdded :
    (m : AggregateMapping) (ms seen acc : List AggregateMapping)
    (rest : Collected (List AggregateMapping)) (existing : Option Str)
    → get m.class_name acc ≡ existing
    → is_empty m.module_name ≡ false
    → IsOf seen acc
    → (IsOf (seen ++ m ∷ []) (set m acc) → IsAdded (seen ++ m ∷ ms) rest)
    → IsAdded (seen ++ m ∷ ms) (
        if clashes existing m.module_name
        then ambiguous m.class_name (or_empty existing) m.module_name
        else rest)
unfolding clashes
add-IsAdded m ms seen acc rest none found named h next =
    next (
      subst (IsOf (seen ++ m ∷ [])) (sym (set-new m acc found)) (IsOf-new m seen acc h named found))
add-IsAdded m ms seen acc rest (some existing) found named h next =
    let there = get-IsIn m.class_name acc existing found in
    let filled =
      IsIn-All (λ x. is_empty x.module_name ≡ false) (entry_of m.class_name existing) acc h.named
        there in
    elim (Bool-cases (str_eq existing m.module_name)) [
      | inl e ↦
          let same = found ∙ ap some ((str_eq_iff existing m.module_name).0 e) in
          rw (filled, e)
            (next (
              subst (IsOf (seen ++ m ∷ [])) (sym (set-known m.class_name acc m.module_name same))
                (IsOf-known m seen acc h same)))
      | inr e ↦
          rw (filled, e)
            (record {
              first =
                  IsIn-left (entry_of m.class_name existing) seen (m ∷ ms)
                    (IsIn-All (λ x. IsIn x seen) (entry_of m.class_name existing) acc h.from there);
              second = IsIn-middle m seen ms;
              differ = str_eq-false existing m.module_name e;
            })
    ]

pub add_all-IsAdded :
    (ms seen acc : List AggregateMapping)
    → All (λ m. is_empty m.module_name ≡ false) ms
    → IsOf seen acc
    → IsAdded (seen ++ ms) (add_all ms acc)
unfolding add_all
add_all-IsAdded [] seen acc named h = subst (λ l. IsOf l acc) (sym (append-nil seen)) h
add_all-IsAdded (m ∷ ms) seen acc (name, named) h =
    add-IsAdded m ms seen acc (add_all ms (set m acc)) (get m.class_name acc) refl name h (λ next.
      subst (λ l. IsAdded l (add_all ms (set m acc))) (append_assoc seen (m ∷ []) ms)
        (add_all-IsAdded ms (seen ++ m ∷ []) (set m acc) named next))
