-- ===== src/AggregateMap/Declared.antt =====
-- What the script collects, against the classes that the files declare.
use shiori_api.Shared.{
  ◌≡◌, refl, sym, ◌∙◌, ap, Bool, true, false, not, inl, inr, none, some, List, [], ◌∷◌, ◌++◌, Str,
  if◌then◌else◌, Bool-cases, Option-cases,
}
use shiori_api.AggregateMap.{
  AggregateMapping, File, Entry, Collected, collected, ambiguous, exported_aggregates, get, set,
  clashes, or_empty, and_then, is_aggregate_file, collect_classes, collect_files, collect_module,
  collect_entries,
}

-- the classes that the aggregates of the modules declare, each with its module
of_classes : Str → List Str → List AggregateMapping
of_classes module_name [] = []
of_classes module_name (name ∷ names) =
    record { class_name = name; module_name = module_name } ∷ of_classes module_name names

of_files : Str → List File → List AggregateMapping
unfolding of_classes
of_files module_name [] = []
of_files module_name (file ∷ files) =
    (if is_aggregate_file file.name
      then of_classes module_name (exported_aggregates file.source)
      else [])
    ++ of_files module_name files

of_module : Entry → List AggregateMapping
unfolding of_files
of_module entry =
    if not entry.is_directory
    then []
    else elim entry.aggregates [ none ↦ [] | some files ↦ of_files entry.name files ]

unfoldable pub declared : List Entry → List AggregateMapping
unfolding of_module
declared [] = []
declared (entry ∷ entries) = of_module entry ++ declared entries

-- the loop on them, one by one
unfoldable pub add_all :
    List AggregateMapping → List AggregateMapping → Collected (List AggregateMapping)
add_all [] by_class_name = collected by_class_name
add_all (m ∷ ms) by_class_name =
    let rest = add_all ms (set m by_class_name) in
    if clashes (get m.class_name by_class_name) m.module_name
    then ambiguous m.class_name (or_empty (get m.class_name by_class_name)) m.module_name
    else rest

unless : {A : Type 0} → Bool → Str → Str → Str → Collected A → Collected A
unless b name existing module_name r = if b then ambiguous name existing module_name else r

and_then-unless :
    {A B : Type 0} (b : Bool) (name existing module_name : Str) (r : Collected A)
    (f : A → Collected B)
    → and_then (unless b name existing module_name r) f
      ≡ unless b name existing module_name (and_then r f)
unfolding unless
and_then-unless true name existing module_name r f = refl
and_then-unless false name existing module_name r f = refl

add_all-append :
    (xs ys acc : List AggregateMapping)
    → add_all (xs ++ ys) acc ≡ and_then (add_all xs acc) (add_all ys)
unfolding add_all unless
add_all-append [] ys acc = refl
add_all-append (m ∷ xs) ys acc =
    let existing = get m.class_name acc in
    let clash = clashes existing m.module_name in
    ap (unless clash m.class_name (or_empty existing) m.module_name)
      (add_all-append xs ys (set m acc))
    ∙ sym (
        and_then-unless clash m.class_name (or_empty existing) m.module_name
          (add_all xs (set m acc)) (add_all ys))

collect_classes-add_all :
    (module_name : Str) (names : List Str) (acc : List AggregateMapping)
    → collect_classes module_name names acc ≡ add_all (of_classes module_name names) acc
unfolding collect_classes add_all of_classes
collect_classes-add_all module_name [] acc = refl
collect_classes-add_all module_name (name ∷ names) acc =
    ap
      (λ rest.
        if clashes (get name acc) module_name
        then ambiguous name (or_empty (get name acc)) module_name
        else rest)
      (collect_classes-add_all module_name names
        (set (record { class_name = name; module_name = module_name }) acc))

and_then-cong :
    {A B : Type 0} (r : Collected A) (f g : A → Collected B)
    → ((a : A) → f a ≡ g a)
    → and_then r f ≡ and_then r g
and_then-cong (collected a) f g h = h a
and_then-cong (ambiguous name existing module_name) f g h = refl

collect_files-add_all :
    (module_name : Str) (files : List File) (acc : List AggregateMapping)
    → collect_files module_name files acc ≡ add_all (of_files module_name files) acc
unfolding collect_files add_all of_files
collect_files-add_all module_name [] acc = refl
collect_files-add_all module_name (file ∷ files) acc =
    let rest = collect_files-add_all module_name files in
    let names = exported_aggregates file.source in
    elim (Bool-cases (is_aggregate_file file.name)) [
      | inl e ↦ rw e (
          ap (λ r. and_then r (collect_files module_name files))
            (collect_classes-add_all module_name names acc)
          ∙ and_then-cong (add_all (of_classes module_name names) acc)
              (collect_files module_name files) (add_all (of_files module_name files)) rest
          ∙ sym (add_all-append (of_classes module_name names) (of_files module_name files) acc))
      | inr e ↦ rw e (rest acc)
    ]

collect_module-add_all :
    (entry : Entry) (acc : List AggregateMapping)
    → collect_module entry acc ≡ add_all (of_module entry) acc
unfolding collect_module of_module add_all
collect_module-add_all entry acc = elim (Bool-cases entry.is_directory) [
  | inl e ↦ elim (Option-cases entry.aggregates) [
    | inl n ↦ rw (e, n) refl
    | inr (files, f) ↦ rw (e, f) (collect_files-add_all entry.name files acc)
  ]
  | inr e ↦ rw e refl
]

pub collect_entries-add_all :
    (entries : List Entry) (acc : List AggregateMapping)
    → collect_entries entries acc ≡ add_all (declared entries) acc
unfolding collect_entries declared add_all
collect_entries-add_all [] acc = refl
collect_entries-add_all (entry ∷ entries) acc =
    ap (λ r. and_then r (collect_entries entries)) (collect_module-add_all entry acc)
    ∙ and_then-cong (add_all (of_module entry) acc) (collect_entries entries)
        (add_all (declared entries)) (collect_entries-add_all entries)
    ∙ sym (add_all-append (of_module entry) (declared entries) acc)
