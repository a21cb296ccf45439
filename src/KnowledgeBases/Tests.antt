-- ===== src/KnowledgeBases/Tests.antt =====
-- A knowledge base under a hash that puts a letter in front, and the theorems of the handlers at it.
pub mod Requests
use shiori_api.Shared.{
  ◌≡◌, ◌≢◌, refl, ap, Bool, true, false, none, some, [], ◌∷◌, ◌++◌, Str, codes, str_eq, str_eq_iff,
  find, arith, is_space, trim,
}
use shiori_api.Exceptions.{knowledge_base_unauthorized, reembedding_in_progress}
use shiori_api.Tenancy.{ok, err}
use shiori_api.KnowledgeBases.Aggregate.Secrecy.{apply, rotates, with_hash, apply_hides_key}
use shiori_api.KnowledgeBases.Aggregate.{
  KnowledgeBase, Values, ready, reembedding, base_model_change_requested,
}
use shiori_api.KnowledgeBases.Store.{Store}
use shiori_api.KnowledgeBases.Commands.{
  generate_api_key, execute_rotate, execute_change_model, execute_reembed, execute_complete,
  can_activate,
}
use shiori_api.KnowledgeBases.Commands.Keys.{IsBuildable, is_base, rotation_replaces_key}
use shiori_api.KnowledgeBases.Commands.Model.{
  changed, completed, change_model_same, reembedding_refuses, model_change_cycle,
}

abbrev pub valid : KnowledgeBase → Bool
valid k = true

abbrev pub kit : Values
kit = record { equals = str_eq; equals_iff = str_eq_iff; touched = λ old now. now }

abbrev pub hash : Str → Str
hash key = b'h' ∷ key

abbrev pub base : KnowledgeBase
base = record {
  id = 1;
  name = codes "Docs";
  description = none;
  api_key_hash = hash (codes "kb_old");
  embedding_model = codes "small";
  embedding_status = ready;
  created_at = 3;
  updated_at = 3;
}

abbrev pub store : Store
store = record {
  bases = base ∷ record base { id = 2; api_key_hash = hash (codes "kb_two") } ∷ [];
  events = [];
  builder = base;
}

base_buildable : IsBuildable valid base
base_buildable = record {
  has_name = refl;
  has_key_hash = refl;
  has_model = refl;
  valid_values = refl;
}

rotation_replaces_key_example :
    let out = execute_rotate valid kit 7 hash (codes "new") 1 store in
    (out.0 ≡ ok (generate_api_key (codes "new")))
    × ((can_activate hash false (some (generate_api_key (codes "new"))) out.1).0 ≡ ok (some 1))
    × ((can_activate hash false (some (codes "kb_old")) out.1).0 ≡ err knowledge_base_unauthorized)
unfolding trim is_space
rotation_replaces_key_example =
    rotation_replaces_key valid kit 7 hash (codes "new") base (codes "kb_old") store refl
      base_buildable
      (record { has_name = refl; has_key_hash = refl; has_model = refl; valid_values = refl })
      (refl, (refl, tt)) refl refl refl

abbrev busy : KnowledgeBase
busy = record base { embedding_status = reembedding }

abbrev store_busy : Store
store_busy = record store { bases = busy ∷ [] }

busy_buildable : IsBuildable valid busy
busy_buildable = record {
  has_name = refl;
  has_key_hash = refl;
  has_model = refl;
  valid_values = refl;
}

small_large : codes "small" ≢ codes "large"
small_large e = let c = ap (str_eq (codes "small")) e in ground arith

model_change_cycle_example :
    let requested = execute_change_model valid kit 7 (λ m. true) 1 (codes "large") store in
    let finished = execute_complete valid kit 7 1 requested.1 in
    (requested.0 ≡ ok tt)
    × (find (is_base 1) (requested.1).bases
        ≡ some (changed valid kit 7 base base_buildable (codes "large")))
    × ((requested.1).events
        ≡ [] ++ base_model_change_requested 1 (codes "small") (codes "large") ∷ [])
    × (finished.0 ≡ ok tt)
    × (find (is_base 1) (finished.1).bases
        ≡ some (completed valid kit 7 base base_buildable (codes "large")))
model_change_cycle_example =
    model_change_cycle valid kit 7 base base_buildable (λ m. true) (codes "large") store refl refl
      small_large refl
      (record { has_name = refl; has_key_hash = refl; has_model = refl; valid_values = refl })
      (record { has_name = refl; has_key_hash = refl; has_model = refl; valid_values = refl })

apply_hides_key_example :
    ((apply kit 7 (rotates (codes "a")) (with_hash base (codes "b"))).1
      ≡ (apply kit 7 (rotates (codes "a")) base).1)
    × ((apply kit 7 (rotates (codes "c")) (with_hash base (codes "b"))).1
        ≡ (apply kit 7 (rotates (codes "d")) base).1)
apply_hides_key_example =
    apply_hides_key kit 7 (rotates (codes "a")) base (codes "b") (codes "c") (codes "d")
