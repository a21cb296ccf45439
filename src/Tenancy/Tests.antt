-- ===== src/Tenancy/Tests.antt =====
-- Two rows of two knowledge bases under a tenant repository.
use shiori_api.Shared.{ℕ, ◌≡◌, refl, true, none, some, List, [], ◌∷◌, ◌==◌, All, arith}
use shiori_api.Exceptions.{context_missing}
use shiori_api.Tenancy.{
  ok, err, Succeeds, Columns, table, scoped, tenant_find, tenant_save, tenant_delete,
  tenant_delete_id,
}
use shiori_api.Tenancy.Isolation.{rows_of, tenant_isolation, table-IsRepository}

record Row : Type 0 where
  id : ℕ
  knowledge_base_id : ℕ

abbrev row_columns : Columns Row
row_columns = record {
  id = λ r. r.id;
  knowledge_base_id = λ r. r.knowledge_base_id;
  with_knowledge_base_id = λ kb r. record r { knowledge_base_id = kb };
}

abbrev mine : Row
mine = record { id = 1; knowledge_base_id = 10 }

abbrev theirs : Row
theirs = record { id = 2; knowledge_base_id = 20 }

abbrev rows : List Row
rows = mine ∷ theirs ∷ []

-- another tenant's row is not found by its identifier
theirs_not_found :
    tenant_find row_columns (table (λ r. r.id)) (some 10) (λ r. r.id == 2) rows ≡ ok []
unfolding tenant_find
theirs_not_found = refl

tenant_isolation_example :
    Succeeds
      (λ found. All (λ x. scoped row_columns 10 (λ r. r.id == 2) x ≡ true) found)
      (tenant_find row_columns (table (λ r. r.id)) (some 10) (λ r. r.id == 2) rows)
    × Succeeds
        (λ left.
          rows_of row_columns (table (λ r. r.id)) 20 left
          ≡ rows_of row_columns (table (λ r. r.id)) 20 rows)
        (tenant_delete row_columns (table (λ r. r.id)) (some 10) (λ r. r.id == 2) rows)
    × Succeeds
        (λ left.
          rows_of row_columns (table (λ r. r.id)) 20 left
          ≡ rows_of row_columns (table (λ r. r.id)) 20 rows)
        (tenant_delete_id row_columns (table (λ r. r.id)) (some 10) 1 rows)
    × Succeeds
        (λ left.
          rows_of row_columns (table (λ r. r.id)) 20 left
          ≡ rows_of row_columns (table (λ r. r.id)) 20 rows)
        (tenant_save row_columns (table (λ r. r.id)) (some 10) mine rows)
    × (tenant_find row_columns (table (λ r. r.id)) none (λ r. r.id == 2) rows ≡ err context_missing)
    × (tenant_delete row_columns (table (λ r. r.id)) none (λ r. r.id == 2) rows
        ≡ err context_missing)
    × (tenant_delete_id row_columns (table (λ r. r.id)) none 1 rows ≡ err context_missing)
    × (tenant_save row_columns (table (λ r. r.id)) none mine rows ≡ err context_missing)
tenant_isolation_example =
    tenant_isolation row_columns (table (λ r. r.id)) (table-IsRepository (λ r. r.id)) (λ kb r. refl)
      (λ kb r. refl) 10 20 (λ r. r.id == 2) 1 mine rows (omega arith)
      ((λ h. ground arith), ((λ h. refl), tt))
