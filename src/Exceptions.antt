-- ===== src/Exceptions.antt =====
-- The exceptions of the contexts (src/contexts/*/domain/exceptions, src/core/tenancy/exceptions) and
-- BaseExceptionFilter.resolveStatus (src/core/filters/base-exception.filter.ts) with the resolver
-- of each context (src/contexts/*/transport/exceptions). An exception carries what its constructor is given;
-- identifiers are numbers.
pub mod Status
pub mod Tests
use shiori_api.Shared.{ℕ, Option, none, some, List, [], ◌∷◌, Str}

pub data Exception : Type 0 where
  -- knowledge-bases
  knowledge_base_not_found : ℕ → Exception
  knowledge_base_unauthorized : Exception
  invalid_api_key_hash : Exception
  invalid_embedding_model : Str → Exception
  reembedding_in_progress : ℕ → Exception
  -- documents
  document_not_found : ℕ → Exception
  content_too_large : ℕ → ℕ → Exception
  invalid_status_transition : Str → Str → Exception
  too_many_chunks : ℕ → ℕ → Exception
  -- embeddings
  search_not_ready : ℕ → Str → Exception
  unknown_embedding_model : Str → Exception
  no_table_for_dimension : ℕ → Exception
  -- core/tenancy
  context_missing : Exception
  -- nestjs-kit's InvalidVectorException, FieldIsRequiredException, and its other BaseExceptions
  invalid_vector : Exception
  field_is_required : Str → Exception
  invalid_value : Exception
  -- an error of the database, the queue or the network
  foreign : Str → Exception

pub resolve_knowledge_bases : Exception → Option ℕ
resolve_knowledge_bases (knowledge_base_not_found id) = some 404
resolve_knowledge_bases knowledge_base_unauthorized = some 401
resolve_knowledge_bases invalid_api_key_hash = some 422
resolve_knowledge_bases (invalid_embedding_model m) = some 400
resolve_knowledge_bases (reembedding_in_progress id) = some 409
resolve_knowledge_bases _ = none

pub resolve_documents : Exception → Option ℕ
resolve_documents (document_not_found id) = some 404
resolve_documents (content_too_large n m) = some 413
resolve_documents (invalid_status_transition from to) = some 422
resolve_documents (too_many_chunks n m) = some 422
resolve_documents _ = none

pub resolve_embeddings : Exception → Option ℕ
resolve_embeddings invalid_vector = some 422
resolve_embeddings (search_not_ready id status) = some 409
resolve_embeddings (unknown_embedding_model m) = some 400
resolve_embeddings (no_table_for_dimension n) = some 500
resolve_embeddings _ = none

-- The first resolver that knows the exception decides, and 400 is the default.
first_status : List (Exception → Option ℕ) → Exception → ℕ
first_status [] e = 400
first_status (r ∷ rs) e = elim (r e) [ some status ↦ status | none ↦ first_status rs e ]

unfoldable pub resolve_status : Exception → ℕ
unfolding first_status resolve_knowledge_bases resolve_documents resolve_embeddings
resolve_status =
    first_status (resolve_knowledge_bases ∷ resolve_documents ∷ resolve_embeddings ∷ [])
