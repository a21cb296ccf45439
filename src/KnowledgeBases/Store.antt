-- ===== src/KnowledgeBases/Store.antt =====
-- The table of knowledge bases behind KnowledgeBaseTypeOrmWriteRepository and the read by the hash of an API key
-- (src/contexts/knowledge-bases/infrastructure/persistence/typeorm), with the one
-- KnowledgeBaseBuilder that every mapping and creation goes through. The repository is not scoped to a
-- knowledge base. What an action wrote before it throws stays written.
pub mod Kept
use shiori_api.Shared.{
  ℕ, Bool, true, false, not, Option, none, some, List, [], ◌∷◌, ◌++◌, Str, codes, str_eq, ◌==◌,
  if◌then◌else◌, filter, find,
}
use shiori_api.Exceptions.{knowledge_base_not_found, field_is_required, invalid_value}
use shiori_api.Tenancy.{Result, ok, err, upsert}
use shiori_api.KnowledgeBases.Aggregate.{KnowledgeBase, Event}

pub record Store : Type 0 where
  pub bases : List KnowledgeBase
  pub events : List Event
  -- the fields of the builder, as those of the aggregate
  pub builder : KnowledgeBase

abbrev pub M : Type 0 → Type 0
M A = Store → Result A × Store

abbrev pub continue : {A B : Type 0} → Result A → (A → M B) → M B
continue (ok a) f s = f a s
continue (err e) f s = (err e, s)

infixl 5 ◌>>=◌ ◌>>◌
abbrev pub ◌>>=◌ : {A B : Type 0} → M A → (A → M B) → M B
◌>>=◌ m f s = let (r, s') = m s in continue r f s'

abbrev pub ◌>>◌ : {A B : Type 0} → M A → M B → M B
m >> k = m >>= λ _. k

abbrev pub pure : {A : Type 0} → A → M A
pure a s = (ok a, s)

abbrev pub lift : {A : Type 0} → Result A → M A
lift r s = (r, s)

abbrev pub is_blank : Str → Bool
is_blank [] = true
is_blank (c ∷ s) = false

unfoldable pub validate : KnowledgeBase → Result (Unit {0})
validate b =
    if is_blank b.name
    then err (field_is_required (codes "name"))
    else if is_blank b.api_key_hash
    then err (field_is_required (codes "apiKeyHash"))
    else if is_blank b.embedding_model
    then err (field_is_required (codes "embeddingModel"))
    else ok tt

-- the value objects of a build, which take what `valid` says
built : (KnowledgeBase → Bool) → KnowledgeBase → Result (Unit {0}) → Result KnowledgeBase
built valid b (ok _) = if valid b then ok b else err invalid_value
built valid b (err e) = err e

unfoldable pub build : (KnowledgeBase → Bool) → KnowledgeBase → Result KnowledgeBase
unfolding validate built
build valid b = built valid b (validate b)

module _ (valid : KnowledgeBase → Bool) where
  unfoldable pub to_domain : KnowledgeBase → M KnowledgeBase
  unfolding build
  to_domain entity s = (build valid entity, record s { builder = entity })

  to_domain_found : Option KnowledgeBase → M (Option KnowledgeBase)
  unfolding to_domain
  to_domain_found none = pure none
  to_domain_found (some entity) = do k ← to_domain entity; pure (some k)

  unfoldable pub find_base : ℕ → M (Option KnowledgeBase)
  unfolding to_domain_found
  find_base id s = to_domain_found (find (λ k. k.id == id) s.bases) s

  -- AssertKnowledgeBaseExistsService
  or_not_found : ℕ → Option KnowledgeBase → M KnowledgeBase
  or_not_found id none = lift (err (knowledge_base_not_found id))
  or_not_found id (some k) = pure k

  unfoldable pub assert_exists : ℕ → M KnowledgeBase
  unfolding find_base or_not_found
  assert_exists id = do found ← find_base id; or_not_found id found

  unfoldable pub save_base : KnowledgeBase → M KnowledgeBase
  unfolding to_domain
  save_base k s = to_domain k (record s { bases = upsert (λ x. x.id) k s.bases })

unfoldable pub delete_base : ℕ → M (Unit {0})
delete_base id s = (ok tt, record s { bases = filter (λ k. not (k.id == id)) s.bases })

-- KnowledgeBaseTypeOrmReadRepository.findByApiKeyHash: the view model's identifier
abbrev pub has_hash : Str → KnowledgeBase → Bool
has_hash hash k = str_eq k.api_key_hash hash

view_found : Option KnowledgeBase → M (Option ℕ)
unfolding validate
view_found none = pure none
view_found (some entity) = do
  (λ s. (validate entity, record s { builder = entity }))
  pure (some entity.id)

unfoldable pub find_by_hash : Str → M (Option ℕ)
unfolding view_found
find_by_hash hash s = view_found (find (has_hash hash) s.bases) s

unfoldable pub publish : List Event → M (Unit {0})
publish es s = (ok tt, record s { events = s.events ++ es })
