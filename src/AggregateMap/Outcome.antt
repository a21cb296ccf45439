-- ===== src/AggregateMap/Outcome.antt =====
-- The collection is the classes that the files declare, without repetition and in the order of their names.
pub mod Found
pub mod Sorted
use shiori_api.Shared.{
  ◌≡◌, ◌≢◌, refl, sym, ◌∙◌, ap, subst, true, false, ◌⊎◌, inl, inr, Option, none, some, List, [],
  ◌∷◌, ◌++◌, append_assoc, append-nil, Str, str_eq, str_eq_iff, arith, All, All-append, All-map,
  if◌then◌else◌, Bool-cases,
}
use shiori_api.AggregateMap.{
  AggregateMapping, Entry, Collected, collected, ambiguous, get, set, clashes, or_empty, is_empty,
  and_then, collect_entries, collect_mappings, str_ltb, insert_mapping, sort_mappings,
}
use shiori_api.AggregateMap.Declared.{declared, add_all, collect_entries-add_all}
use shiori_api.AggregateMap.Outcome.Found.{IsIn, IsClash, IsAdded, add_all-IsAdded}
use shiori_api.AggregateMap.Outcome.Sorted.{
  IsSorted, sort_mappings-All, IsIn-sort_mappings, sort_mappings-IsSorted,
}

-- The result for the declarations `ds`.
pub record IsSame (ds ms : List AggregateMapping) : Type 0 where
  pub from : All (λ m. IsIn m ds) ms
  pub into : All (λ m. IsIn m ms) ds
  pub sorted : IsSorted ms

abbrev pub IsCollected : List AggregateMapping → Collected (List AggregateMapping) → Type 0
IsCollected ds (collected ms) = IsSame ds ms
IsCollected ds (ambiguous name existing module_name) = IsClash ds name existing module_name

sort-IsCollected :
    (ds : List AggregateMapping) (r : Collected (List AggregateMapping))
    → IsAdded ds r
    → IsCollected ds (and_then r (λ ms. collected (sort_mappings ms)))
sort-IsCollected ds (collected ms) h = record {
  from = sort_mappings-All (λ m. IsIn m ds) ms h.from;
  into = All-map (λ m i. IsIn-sort_mappings m ms i) ds h.into;
  sorted = sort_mappings-IsSorted ms h.distinct;
}
sort-IsCollected ds (ambiguous name existing module_name) h = h

-- For directories with names, `collectMappings` gives the exported `*Aggregate` classes of the aggregate files, each with
-- its module, no other pair, in strictly ascending order of the class names; or it throws, with a class
-- that two modules of different names declare.
pub collect_mappings-IsCollected :
    (entries : List Entry)
    → All (λ m. is_empty m.module_name ≡ false) (declared entries)
    → IsCollected (declared entries) (collect_mappings (some entries))
unfolding collect_mappings
collect_mappings-IsCollected entries named =
    sort-IsCollected (declared entries) (collect_entries entries []) (
      subst (IsAdded (declared entries)) (sym (collect_entries-add_all entries [])) (
        add_all-IsAdded (declared entries) [] [] named
          (record { from = tt; into = tt; distinct = tt; named = tt })))
