-- ===== src/AggregateMap/Outcome/Sorted.antt =====
-- The insertion sort of the classes by their names.
use shiori_api.Shared.{
  ◌≡◌, refl, true, false, inl, inr, none, List, [], ◌∷◌, Str, str_eq, arith, All, Bool-cases,
}
use shiori_api.AggregateMap.{AggregateMapping, get, str_ltb, insert_mapping, sort_mappings}
use shiori_api.AggregateMap.Outcome.Found.{IsIn, AreDistinct}

-- in the order of the names, each once
abbrev pub IsSorted : List AggregateMapping → Type 0
IsSorted [] = Unit
IsSorted (m ∷ []) = Unit
IsSorted (m ∷ x ∷ ms) = (str_ltb m.class_name x.class_name ≡ true) × IsSorted (x ∷ ms)

str_ltb-total : (a b : Str) → str_ltb a b ≡ false → str_eq b a ≡ false → str_ltb b a ≡ true
unfolding str_ltb
str_ltb-total [] [] h ne = ground arith
str_ltb-total [] (d ∷ b) h ne = ground arith
str_ltb-total (c ∷ a) [] h ne = refl
str_ltb-total (c ∷ a) (d ∷ b) h ne = ground (arith, str_ltb-total a b)

insert_mapping-All :
    (P : AggregateMapping → Type 0) (m : AggregateMapping) (ms : List AggregateMapping)
    → P m
    → All P ms
    → All P (insert_mapping m ms)
unfolding insert_mapping
insert_mapping-All P m [] hm h = (hm, tt)
insert_mapping-All P m (x ∷ ms) hm (hx, h) = elim (Bool-cases (str_ltb m.class_name x.class_name)) [
  | inl e ↦ rw e (hm, (hx, h))
  | inr e ↦ rw e (hx, insert_mapping-All P m ms hm h)
]

pub sort_mappings-All :
    (P : AggregateMapping → Type 0) (ms : List AggregateMapping)
    → All P ms
    → All P (sort_mappings ms)
unfolding sort_mappings
sort_mappings-All P [] h = tt
sort_mappings-All P (m ∷ ms) (hm, h) =
    insert_mapping-All P m (sort_mappings ms) hm (sort_mappings-All P ms h)

IsIn-insert_mapping :
    (p m : AggregateMapping) (ms : List AggregateMapping)
    → IsIn p (m ∷ ms)
    → IsIn p (insert_mapping m ms)
unfolding insert_mapping
IsIn-insert_mapping p m [] h = h
IsIn-insert_mapping p m (x ∷ ms) h = elim (Bool-cases (str_ltb m.class_name x.class_name)) [
  | inl e ↦ rw e h
  | inr e ↦ rw e (behind p m x ms h (IsIn-insert_mapping p m ms))
]
  where
    behind :
        (p m x : AggregateMapping) (ms : List AggregateMapping)
        → IsIn p (m ∷ x ∷ ms)
        → (IsIn p (m ∷ ms) → IsIn p (insert_mapping m ms))
        → IsIn p (x ∷ insert_mapping m ms)
    behind p m x ms (inl e) f = inr (f (inl e))
    behind p m x ms (inr (inl e)) f = inl e
    behind p m x ms (inr (inr i)) f = inr (f (inr i))

pub IsIn-sort_mappings :
    (p : AggregateMapping) (ms : List AggregateMapping) → IsIn p ms → IsIn p (sort_mappings ms)
unfolding sort_mappings
IsIn-sort_mappings p [] h = h
IsIn-sort_mappings p (m ∷ ms) (inl e) = IsIn-insert_mapping p m (sort_mappings ms) (inl e)
IsIn-sort_mappings p (m ∷ ms) (inr i) =
    IsIn-insert_mapping p m (sort_mappings ms) (inr (IsIn-sort_mappings p ms i))

-- an insertion of a class that is new
insert_mapping-IsSorted :
    (m : AggregateMapping) (ms : List AggregateMapping)
    → All (λ x. str_eq x.class_name m.class_name ≡ false) ms
    → IsSorted ms
    → IsSorted (insert_mapping m ms)
unfolding insert_mapping
insert_mapping-IsSorted m [] new h = tt
insert_mapping-IsSorted m (x ∷ ms) (new, others) h =
    elim (Bool-cases (str_ltb m.class_name x.class_name)) [
      | inl e ↦ rw e (e, h)
      | inr e ↦ rw e (
          behind m x ms (str_ltb-total m.class_name x.class_name e new) h
            (insert_mapping-IsSorted m ms others))
    ]
  where
    behind :
        (m x : AggregateMapping) (ms : List AggregateMapping)
        → str_ltb x.class_name m.class_name ≡ true
        → IsSorted (x ∷ ms)
        → (IsSorted ms → IsSorted (insert_mapping m ms))
        → IsSorted (x ∷ insert_mapping m ms)
    behind m x [] lt h f = (lt, tt)
    behind m x (y ∷ ms) lt (less, h) f =
        let sorted = f h in
        elim (Bool-cases (str_ltb m.class_name y.class_name)) [
          | inl e ↦ rw e (lt, (e, h))
          | inr e ↦ rw e (less, rw e at sorted)
        ]

get-none-All :
    (name : Str) (ms : List AggregateMapping)
    → get name ms ≡ none
    → All (λ x. str_eq x.class_name name ≡ false) ms
unfolding get
get-none-All name [] h = tt
get-none-All name (x ∷ ms) h = elim (Bool-cases (str_eq x.class_name name)) [
  | inl e ↦ absurd (let c = rw e at h in ground arith)
  | inr e ↦ (e, get-none-All name ms (rw e at h))
]

pub sort_mappings-IsSorted :
    (ms : List AggregateMapping) → AreDistinct ms → IsSorted (sort_mappings ms)
unfolding sort_mappings
sort_mappings-IsSorted [] d = tt
sort_mappings-IsSorted (m ∷ ms) (new, d) =
    insert_mapping-IsSorted m (sort_mappings ms)
      (sort_mappings-All (λ x. str_eq x.class_name m.class_name ≡ false) ms
        (get-none-All m.class_name ms new))
      (sort_mappings-IsSorted ms d)
