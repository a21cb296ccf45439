-- ===== src/Exceptions/Status.antt =====
-- The HTTP status of an exception.
use shiori_api.Shared.{ℕ, ◌≡◌, none, some, arith}
use shiori_api.Exceptions.{
  Exception, resolve_knowledge_bases, resolve_documents, resolve_embeddings, resolve_status,
}

-- What the contexts' resolvers answer, whichever of them does; 400 where none knows the exception.
pub data Answer (e : Exception) : ℕ → Type 0 where
  by_knowledge_bases : {status : ℕ} → resolve_knowledge_bases e ≡ some status → Answer e status
  by_documents : {status : ℕ} → resolve_documents e ≡ some status → Answer e status
  by_embeddings : {status : ℕ} → resolve_embeddings e ≡ some status → Answer e status
  by_none :
      resolve_knowledge_bases e ≡ none
      → resolve_documents e ≡ none
      → resolve_embeddings e ≡ none
      → Answer e 400

knowledge_bases_first :
    (e : Exception) (status : ℕ)
    → resolve_knowledge_bases e ≡ some status
    → resolve_status e ≡ status
unfolding resolve_status
knowledge_bases_first _ status h = ground arith

documents_next :
    (e : Exception) (status : ℕ) → resolve_documents e ≡ some status → resolve_status e ≡ status
unfolding resolve_status
documents_next _ status h = ground arith

embeddings_last :
    (e : Exception) (status : ℕ) → resolve_embeddings e ≡ some status → resolve_status e ≡ status
unfolding resolve_status
embeddings_last _ status h = ground arith

no_answer :
    (e : Exception)
    → resolve_knowledge_bases e ≡ none
    → resolve_documents e ≡ none
    → resolve_embeddings e ≡ none
    → resolve_status e ≡ 400
unfolding resolve_status
no_answer _ h h' h'' = ground arith

-- Whichever context's resolver answers for an exception, its answer is the status, wherever the resolver
-- stands in the list; an exception that no resolver knows gets 400.
pub resolve_status-owner :
    (e : Exception) (status : ℕ) → Answer e status → resolve_status e ≡ status
resolve_status-owner e status (by_knowledge_bases h) = knowledge_bases_first e status h
resolve_status-owner e status (by_documents h) = documents_next e status h
resolve_status-owner e status (by_embeddings h) = embeddings_last e status h
resolve_status-owner e status (by_none h h' h'') = no_answer e h h' h''
