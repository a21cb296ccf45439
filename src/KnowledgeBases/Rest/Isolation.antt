-- ===== src/KnowledgeBases/Rest/Isolation.antt =====
-- Which knowledge bases a request can touch.
use shiori_api.Shared.{
  ◌≡◌, refl, true, false, Option, none, some, Str, filter, find, ◌⊎◌, Bool-cases, inl, inr, trim,
}
use shiori_api.Exceptions.{knowledge_base_unauthorized}
use shiori_api.Tenancy.{ok, err}
use shiori_api.KnowledgeBases.Aggregate.{KnowledgeBase}
use shiori_api.KnowledgeBases.Store.{Store, is_blank, validate, has_hash}
use shiori_api.KnowledgeBases.Store.Kept.{other}
use shiori_api.KnowledgeBases.Commands.{can_activate}
use shiori_api.KnowledgeBases.Rest.Kept.{Keeps-own}
use shiori_api.KnowledgeBases.Rest.{Route, Environment, with_bound, handle}

module _ (env : Environment) (route : Route) (s : Store) where
  -- A request to any guarded route with a key that is not blank and whose hash is that of the knowledge base `k` and
  -- passes validation leaves every other knowledge base as it is, whether it succeeds or fails.
  pub handle-Keeps :
      (key : Str) (k : KnowledgeBase)
      → is_blank (trim key) ≡ false
      → find (has_hash (env.hash key)) s.bases ≡ some k
      → validate k ≡ ok tt
      → filter (other k.id) (handle env (some key) route s).1.bases ≡ filter (other k.id) s.bases
  unfolding handle can_activate with_bound
  handle-Keeps key k filled found valid =
      rw (filled, found, valid) (Keeps-own env k.id route (record s { builder = k })).0

  -- no knowledge base has the key of the header
  abbrev IsUnknown : Option Str → Type 0
  IsUnknown none = Unit
  IsUnknown (some key) =
      (is_blank (trim key) ≡ true) ⊎ (find (has_hash (env.hash key)) s.bases ≡ none)

  -- A request to a guarded route without a key, or with one that is blank or that no knowledge base has, is refused
  -- with KnowledgeBaseUnauthorizedException and changes nothing.
  handle_unauthorized :
      (header : Option Str)
      → IsUnknown header
      → handle env header route s ≡ (err knowledge_base_unauthorized, s)
  unfolding handle can_activate
  handle_unauthorized none h = refl
  handle_unauthorized (some key) (inl blank) = rw blank refl
  handle_unauthorized (some key) (inr missing) = elim (Bool-cases (is_blank (trim key))) [
    | inl e ↦ rw e refl
    | inr e ↦ rw (e, missing) refl
  ]
