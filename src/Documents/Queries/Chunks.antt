-- ===== src/Documents/Queries/Chunks.antt =====
-- findByDocumentId of the chunk repository, which ChunkFindByDocumentIdQueryHandler gives on
-- (src/contexts/documents/application/queries/chunk-find-by-document-id).
use shiori_api.Shared.{ℕ, Bool, List, [], ◌∷◌, Str, ◌==◌, if◌then◌else◌, sort_by}
use shiori_api.Exceptions.{invalid_value}
use shiori_api.Tenancy.{Result, ok, err, ◌>>=◌, Context, table, tenant_find}
use shiori_api.Documents.Store.{Chunk, chunk_columns}

-- ChunkBuilder.build, where ChunkTextValueObject takes the text
unfoldable pub chunk_to_domain : (Str → Bool) → Chunk → Result Chunk
chunk_to_domain accepts c = if accepts c.text then ok c else err invalid_value

unfoldable pub chunks_to_domain : (Str → Bool) → List Chunk → Result (List Chunk)
unfolding chunk_to_domain
chunks_to_domain accepts [] = ok []
chunks_to_domain accepts (c ∷ cs) = do
  c' ← chunk_to_domain accepts c
  cs' ← chunks_to_domain accepts cs
  ok (c' ∷ cs')

abbrev pub position_of : Chunk → ℕ
position_of c = c.position

-- the chunks of a document of the frame's knowledge base, by position
unfoldable pub find_chunks : (Str → Bool) → ℕ → Context → List Chunk → Result (List Chunk)
unfolding chunks_to_domain tenant_find sort_by
find_chunks accepts document_id ctx chunks = do
  rows ←
      tenant_find chunk_columns (table (λ c. c.id)) ctx (λ c. c.document_id == document_id) chunks
  chunks_to_domain accepts (sort_by position_of rows)
