-- ===== src/Tenancy/Isolation.antt =====
-- Tenant repositories and the rows of other knowledge bases.
use shiori_api.Shared.{
  ℕ, ◌≡◌, ◌≢◌, refl, Bool, true, false, not, some, none, List, [], ◌∷◌, ◌++◌, ap, ◌==◌, arith,
  filter, All, Bool-cases, inl, inr,
}
use shiori_api.Exceptions.{context_missing}
use shiori_api.Tenancy.{
  err, Succeeds, Columns, Repository, IsRepository, scoped, tenant_find, tenant_save, tenant_delete,
  tenant_delete_id, upsert, table,
}

module _ {E : Type 0} (columns : Columns E) (repo : Repository E) where
  -- the rows of one knowledge base
  abbrev pub rows_of : ℕ → List E → List E
  rows_of kb = filter (λ e. columns.knowledge_base_id e == kb)

  scoped_other :
      (kb other : ℕ) (where_ : E → Bool)
      → kb ≢ other
      → (e : E) → (columns.knowledge_base_id e == other) ≡ true
      → scoped columns kb where_ e ≡ false
  scoped_other kb other where_ ne e h = ground arith

  -- Inside a frame for `kb` a find gives rows of `kb` that meet the condition, and a delete, by
  -- condition or by identifier, leaves the rows of every other knowledge base as they are; so
  -- does a save, unless the entity's identifier is that of such a row.
  -- Outside a frame each of the four calls fails with KnowledgeBaseContextMissingException.
  pub tenant_isolation :
      IsRepository columns.id repo
      → ((kb' : ℕ) (e : E) → columns.knowledge_base_id (columns.with_knowledge_base_id kb' e) ≡ kb')
      → ((kb' : ℕ) (e : E) → columns.id (columns.with_knowledge_base_id kb' e) ≡ columns.id e)
      → (kb other : ℕ) (where_ : E → Bool) (id : ℕ) (e : E) (rows : List E) → kb ≢ other
      → All
          (λ x.
            (columns.knowledge_base_id x == other) ≡ true → (columns.id x == columns.id e) ≡ false)
          rows
      → Succeeds
          (λ found. All (λ x. scoped columns kb where_ x ≡ true) found)
          (tenant_find columns repo (some kb) where_ rows)
        × Succeeds
            (λ left. rows_of other left ≡ rows_of other rows)
            (tenant_delete columns repo (some kb) where_ rows)
        × Succeeds
            (λ left. rows_of other left ≡ rows_of other rows)
            (tenant_delete_id columns repo (some kb) id rows)
        × Succeeds
            (λ left. rows_of other left ≡ rows_of other rows)
            (tenant_save columns repo (some kb) e rows)
        × (tenant_find columns repo none where_ rows ≡ err context_missing)
        × (tenant_delete columns repo none where_ rows ≡ err context_missing)
        × (tenant_delete_id columns repo none id rows ≡ err context_missing)
        × (tenant_save columns repo none e rows ≡ err context_missing)
  unfolding tenant_find tenant_delete tenant_delete_id tenant_save
  tenant_isolation laws stamps same kb other where_ id e rows ne apart = (
    laws.find-All (scoped columns kb where_) rows,
    laws.filter-delete (scoped columns kb where_) (λ x. columns.knowledge_base_id x == other) rows
        (scoped_other kb other where_ ne),
    laws.filter-delete (scoped columns kb (λ x. columns.id x == id))
        (λ x. columns.knowledge_base_id x == other) rows
        (scoped_other kb other (λ x. columns.id x == id) ne),
    laws.filter-save (λ x. columns.knowledge_base_id x == other)
        (columns.with_knowledge_base_id kb e) rows (rw (stamps kb e) (ground arith))
        (rw (same kb e) apart),
    refl,
    refl,
    refl,
    refl,
  )

-- The rows of a table meet what is relied on.
module _ {E : Type 0} (id : E → ℕ) where
  table-find : (p : E → Bool) (rows : List E) → All (λ e. p e ≡ true) (filter p rows)
  table-find p [] = tt
  table-find p (x ∷ rows) = elim (Bool-cases (p x)) [
    | inl h ↦ rw h (h, table-find p rows)
    | inr h ↦ rw h (table-find p rows)
  ]

  table-delete :
      (p q : E → Bool) (rows : List E)
      → ((e : E) → q e ≡ true → p e ≡ false)
      → filter q (filter (λ e. not (p e)) rows) ≡ filter q rows
  table-delete p q [] h = refl
  table-delete p q (x ∷ rows) h = ground (arith, h x, table-delete p q rows h)

  pub table-save :
      (q : E → Bool) (e : E) (rows : List E)
      → q e ≡ false
      → All (λ x. q x ≡ true → (id x == id e) ≡ false) rows
      → filter q (upsert id e rows) ≡ filter q rows
  table-save q e [] out _ = rw out
  table-save q e (x ∷ rows) out (hx, h) = ground (arith, hx, table-save q e rows out h)

  pub table-IsRepository : IsRepository id (table id)
  table-IsRepository = record {
    find-All = table-find;
    filter-delete = table-delete;
    filter-save = table-save;
  }

-- An entity with an identifier that no row has is added behind the rows.
pub upsert-fresh :
    {E : Type 0} (id : E → ℕ) (e : E) (rows : List E)
    → All (λ x. (id x == id e) ≡ false) rows
    → upsert id e rows ≡ rows ++ e ∷ []
upsert-fresh id e [] h = refl
upsert-fresh id e (x ∷ rows) (hx, h) = rw hx (ap (λ rest. x ∷ rest) (upsert-fresh id e rows h))

pub upsert-All :
    {E : Type 0} (id : E → ℕ) (P : E → Type 0) (e : E) (rows : List E)
    → P e
    → All P rows
    → All P (upsert id e rows)
upsert-All id P e [] he h = (he, tt)
upsert-All id P e (x ∷ rows) he (hx, h) = elim (Bool-cases (id x == id e)) [
  | inl t ↦ rw t (he, h)
  | inr t ↦ rw t (hx, upsert-All id P e rows he h)
]
