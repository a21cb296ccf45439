-- ===== src/AggregateMap.antt =====
-- The script that generates the map from aggregates to the topics of their modules (scripts/generate-aggregate-module-map.ts).
-- The tree under src/contexts and the generated file are arguments; `none` is a directory or a file that cannot be read.
pub mod Declared
pub mod Outcome
pub mod Tests
use shiori_api.Shared.{
  ℕ, zero, suc, ◌-◌, ◌+◌, Bool, true, false, not, ◌&&◌, ◌||◌, Option, none, some, List, [], ◌∷◌,
  ◌++◌, Str, codes, length, leb, ltb, ◌==◌, if◌then◌else◌, is_space, span, str_eq, drop, map,
}

pub record AggregateMapping : Type 0 where
  pub class_name : Str
  pub module_name : Str

pub record File : Type 0 where
  pub name : Str
  pub source : Str

-- an entry of src/contexts, with the files of its domain/aggregates
pub record Entry : Type 0 where
  pub name : Str
  pub is_directory : Bool
  pub aggregates : Option (List File)

-- a collection, or the class name and the two modules of the error
pub data Collected (A : Type 0) : Type 0 where
  collected : A → Collected A
  ambiguous : Str → Str → Str → Collected A

-- `\w`
is_word : ℕ → Bool
is_word c = (leb 48 c && leb c 57) || (leb 65 c && leb c 90) || (leb 97 c && leb c 122) || c == 95

abbrev is_empty : Str → Bool
is_empty [] = true
is_empty (c ∷ s) = false

-- what follows a prefix
strip_prefix : Str → Str → Option Str
strip_prefix [] s = some s
strip_prefix (c ∷ p) [] = none
strip_prefix (c ∷ p) (d ∷ s) = if c == d then strip_prefix p s else none

ends_with : Str → Str → Bool
ends_with suffix s =
    leb (length suffix) (length s) && str_eq (drop (length s - length suffix) s) suffix

-- `\s+`
spaces : Option Str → Option Str
spaces none = none
spaces (some s) = let r = span is_space s in if is_empty r.0 then none else some r.1

then_prefix : Str → Option Str → Option Str
then_prefix p none = none
then_prefix p (some s) = strip_prefix p s

-- `(\w+Aggregate)\b`: a whole word, since there is no boundary inside one
class_of : Option Str → Option (Str × Str)
class_of none = none
class_of (some s) =
    let r = span is_word s in
    if ends_with (codes "Aggregate") r.0 && ltb 9 (length r.0) then some (r.0, r.1) else none

-- EXPORTED_AGGREGATE at a position: the class name, and what follows the match
match_exported : Str → Option (Str × Str)
unfolding is_word strip_prefix ends_with spaces then_prefix class_of span is_space
match_exported s =
    class_of (spaces (then_prefix (codes "class") (spaces (strip_prefix (codes "export") s))))

-- `source.matchAll(EXPORTED_AGGREGATE)`, with the number of code units to go to the end of the last match
match_from : ℕ → Str → List Str
unfolding match_exported
match_from n [] = []
match_from (suc n) (c ∷ s) = match_from n s
match_from zero (c ∷ s) =
    let without = match_from 0 s in
    elim (match_exported (c ∷ s)) [
      | none ↦ without
      | some (name, after) ↦ name ∷ match_from (length s - length after) s
    ]

unfoldable pub exported_aggregates : Str → List Str
unfolding match_from
exported_aggregates source = match_from 0 source

-- `byClassName`, in the order of insertion
unfoldable pub get : Str → List AggregateMapping → Option Str
get name [] = none
get name (m ∷ ms) = if str_eq m.class_name name then some m.module_name else get name ms

unfoldable pub set : AggregateMapping → List AggregateMapping → List AggregateMapping
set m [] = m ∷ []
set m (x ∷ xs) = if str_eq x.class_name m.class_name then m ∷ xs else x ∷ set m xs

-- `existing && existing !== module.name`
unfoldable pub clashes : Option Str → Str → Bool
clashes none module_name = false
clashes (some existing) module_name = not (is_empty existing) && not (str_eq existing module_name)

abbrev pub or_empty : Option Str → Str
or_empty none = []
or_empty (some s) = s

-- the loop over the classes of a file, of a module
collect_classes : Str → List Str → List AggregateMapping → Collected (List AggregateMapping)
collect_classes module_name [] by_class_name = collected by_class_name
collect_classes module_name (class_name ∷ names) by_class_name =
    let existing = get class_name by_class_name in
    let rest =
      collect_classes module_name names
        (set (record { class_name = class_name; module_name = module_name }) by_class_name) in
    if clashes existing module_name
    then ambiguous class_name (or_empty existing) module_name
    else rest

abbrev pub and_then : {A B : Type 0} → Collected A → (A → Collected B) → Collected B
and_then (collected a) f = f a
and_then (ambiguous name existing module_name) f = ambiguous name existing module_name

unfoldable pub is_aggregate_file : Str → Bool
unfolding ends_with
is_aggregate_file name =
    ends_with (codes ".aggregate.ts") name && not (ends_with (codes ".spec.ts") name)

collect_files : Str → List File → List AggregateMapping → Collected (List AggregateMapping)
unfolding collect_classes
collect_files module_name [] by_class_name = collected by_class_name
collect_files module_name (file ∷ files) by_class_name =
    and_then
      (if is_aggregate_file file.name
        then collect_classes module_name (exported_aggregates file.source) by_class_name
        else collected by_class_name)
      (collect_files module_name files)

collect_module : Entry → List AggregateMapping → Collected (List AggregateMapping)
unfolding collect_files
collect_module entry by_class_name =
    if not entry.is_directory then collected by_class_name else elim entry.aggregates [
      | none ↦ collected by_class_name
      | some files ↦ collect_files entry.name files by_class_name
    ]

pub collect_entries : List Entry → List AggregateMapping → Collected (List AggregateMapping)
unfolding collect_module
collect_entries [] by_class_name = collected by_class_name
collect_entries (entry ∷ entries) by_class_name =
    and_then (collect_module entry by_class_name) (collect_entries entries)

-- `a < b` on strings: by code units
unfoldable pub str_ltb : Str → Str → Bool
str_ltb [] [] = false
str_ltb [] (d ∷ b) = true
str_ltb (c ∷ a) [] = false
str_ltb (c ∷ a) (d ∷ b) = ltb c d || ((c == d) && str_ltb a b)

-- the built-in `sort` by `a.className < b.className ? -1 : 1`
unfoldable pub insert_mapping : AggregateMapping → List AggregateMapping → List AggregateMapping
insert_mapping m [] = m ∷ []
insert_mapping m (x ∷ xs) =
    let rest = insert_mapping m xs in
    if str_ltb m.class_name x.class_name then m ∷ x ∷ xs else x ∷ rest

unfoldable pub sort_mappings : List AggregateMapping → List AggregateMapping
unfolding insert_mapping
sort_mappings [] = []
sort_mappings (m ∷ ms) = insert_mapping m (sort_mappings ms)

unfoldable pub collect_mappings : Option (List Entry) → Collected (List AggregateMapping)
unfolding collect_entries
collect_mappings none = collected []
collect_mappings (some entries) =
    and_then (collect_entries entries []) (λ ms. collected (sort_mappings ms))

-- `join('\n')` of the entries
render_entry : AggregateMapping → Str
render_entry m = codes "  " ++ m.class_name ++ codes ": '" ++ m.module_name ++ codes "',"

join_lines : List Str → Str
join_lines [] = []
join_lines (l ∷ []) = l
join_lines (l ∷ k ∷ ls) = l ++ 10 ∷ join_lines (k ∷ ls)

-- the comment of the generated file and the declaration up to its brace
abbrev header_lines : List Str
header_lines =
    codes "/**"
    ∷ codes " * AUTO-GENERATED FILE — DO NOT EDIT BY HAND."
    ∷ codes " *"
    ∷ codes " * Maps each aggregate root type to its bounded-context module (the Kafka topic"
    ∷ codes " * suffix `${prefix}.${module}`). Derived by scanning"
    ∷ codes " * `src/contexts/<module>/domain/aggregates/*.aggregate.ts`: the owning"
    ∷ codes " * `<module>` folder is the topic, and every exported `*Aggregate` class is a key."
    ∷ codes " *"
    ∷ codes " * Regenerate with `pnpm gen:topics`. The pre-commit hook and CI"
    ∷ codes " * (`pnpm gen:topics:check`) keep this file in sync, so creating a new aggregate"
    ∷ codes " * needs no manual edit here."
    ∷ codes " *"
    ∷ codes " * @see scripts/generate-aggregate-module-map.ts"
    ∷ codes " */"
    ∷ codes "export const AGGREGATE_MODULE_MAP: Readonly<Record<string, string>> = {"
    ∷ []

braced : List Str → Str
unfolding join_lines
braced [] = []
braced (l ∷ ls) = 10 ∷ join_lines (l ∷ ls) ++ 10 ∷ []

unfoldable pub render : List AggregateMapping → Str
unfolding render_entry braced join_lines
render mappings =
    join_lines header_lines ++ braced (map render_entry mappings) ++ codes "};" ++ 10 ∷ []

-- what a run does: it throws, or writes the file, or says how many aggregates the file that is there has, or exits
-- with an error
pub data Ran : Type 0 where
  failed : Str → Str → Str → Ran
  wrote : Str → ℕ → Ran
  up_to_date : ℕ → Ran
  out_of_date : Ran

finish_run : Bool → Option Str → List AggregateMapping → Ran
unfolding render
finish_run false current mappings = wrote (render mappings) (length mappings)
finish_run true current mappings =
    if str_eq (or_empty current) (render mappings)
    then up_to_date (length mappings)
    else out_of_date

-- `main`, with whether `--check` is among the arguments and the file that is there
main_of : Bool → Option Str → Collected (List AggregateMapping) → Ran
unfolding finish_run
main_of check current (collected mappings) = finish_run check current mappings
main_of check current (ambiguous name existing module_name) = failed name existing module_name

unfoldable pub main : Bool → Option Str → Option (List Entry) → Ran
unfolding main_of collect_mappings
main check current contexts = main_of check current (collect_mappings contexts)
