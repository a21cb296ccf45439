-- ===== src/Tenancy.antt =====
-- src/core/tenancy. `KnowledgeBaseContext` is an ambient knowledge base, absent outside a frame;
-- `createTenantRepository` wraps a TypeORM repository. TypeORM is not part of the repository:
-- its `find`, `save` and `delete` are the fields of `Repository`, over the rows of a table, and what is
-- relied on stands in `IsRepository`.
pub mod Isolation
pub mod Action
pub mod Binding
pub mod Tests
use shiori_api.Shared.{
  ℕ, ◌≡◌, Bool, true, false, not, ◌&&◌, Option, none, some, List, [], ◌∷◌, ◌==◌, if◌then◌else◌,
  filter, All,
}
use shiori_api.Exceptions.{Exception, context_missing}

pub data Result {ℓ} (A : Type ℓ) : Type ℓ where
  ok : A → Result A
  err : Exception → Result A

infixl 5 ◌>>=◌
abbrev pub ◌>>=◌ {ℓ κ} : {A : Type ℓ} {B : Type κ} → Result A → (A → Result B) → Result B
ok a >>= f = f a
err e >>= f = err e

-- a result that is no error and meets `P`
abbrev pub Succeeds : {A : Type 0} → (A → Type 0) → Result A → Type 0
Succeeds P (ok a) = P a
Succeeds P (err e) = ⊥

-- a result that, if it is no error, meets `P`
abbrev pub IfOk : {A : Type 0} → (A → Type 0) → Result A → Type 0
IfOk P (ok a) = P a
IfOk P (err e) = Unit

-- The frame of `KnowledgeBaseContext.run`, or none.
abbrev pub Context : Type 0
Context = Option ℕ

unfoldable pub require : Context → Result ℕ
require none = err context_missing
require (some id) = ok id

-- What the wrapper reads and writes of an entity: its identifier and its `knowledgeBaseId`.
pub record Columns (E : Type 0) : Type 0 where
  pub id : E → ℕ
  pub knowledge_base_id : E → ℕ
  pub with_knowledge_base_id : ℕ → E → E

pub record Repository (E : Type 0) : Type 0 where
  pub find : (E → Bool) → List E → List E
  pub save : E → List E → List E
  pub delete : (E → Bool) → List E → List E

module _ {E : Type 0} (columns : Columns E) where
  -- `where: { ...where, knowledgeBaseId }`
  abbrev pub scoped : ℕ → (E → Bool) → E → Bool
  scoped kb where_ e = where_ e && columns.knowledge_base_id e == kb

  module _ (repo : Repository E) (ctx : Context) where
    unfoldable pub tenant_find : (E → Bool) → List E → Result (List E)
    unfolding require
    tenant_find where_ rows = do kb ← require ctx; ok (repo.find (scoped kb where_) rows)

    unfoldable pub tenant_save : E → List E → Result (List E)
    unfolding require
    tenant_save e rows = do
      kb ← require ctx
      ok (repo.save (columns.with_knowledge_base_id kb e) rows)

    unfoldable pub tenant_delete : (E → Bool) → List E → Result (List E)
    unfolding require
    tenant_delete where_ rows = do kb ← require ctx; ok (repo.delete (scoped kb where_) rows)

    -- `delete(id)` with a plain identifier
    unfoldable pub tenant_delete_id : ℕ → List E → Result (List E)
    unfolding tenant_delete
    tenant_delete_id id rows = tenant_delete (λ e. columns.id e == id) rows

-- What the program relies on, for a row's identifier `id`: `find` gives rows that meet the condition,
-- `delete` leaves alone the rows outside it, and `save` those with another identifier.
pub record IsRepository {E : Type 0} (id : E → ℕ) (repo : Repository E) : Type 0 where
  pub find-All : (p : E → Bool) (rows : List E) → All (λ e. p e ≡ true) (repo.find p rows)
  pub filter-delete :
      (p q : E → Bool) (rows : List E)
      → ((e : E) → q e ≡ true → p e ≡ false)
      → filter q (repo.delete p rows) ≡ filter q rows
  pub filter-save :
      (q : E → Bool) (e : E) (rows : List E)
      → q e ≡ false
      → All (λ x. q x ≡ true → (id x == id e) ≡ false) rows
      → filter q (repo.save e rows) ≡ filter q rows

-- A table by its rows: `save` replaces the row with the entity's identifier, or adds one.
module _ {E : Type 0} (id : E → ℕ) where
  abbrev pub upsert : E → List E → List E
  upsert e [] = e ∷ []
  upsert e (x ∷ xs) = if id x == id e then e ∷ xs else x ∷ upsert e xs

  abbrev pub table : Repository E
  table = record { find = filter; save = upsert; delete = λ p. filter (λ e. not (p e)) }
