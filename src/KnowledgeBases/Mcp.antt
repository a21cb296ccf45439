-- ===== src/KnowledgeBases/Mcp.antt =====
-- McpContextBuilder (src/core/mcp/mcp-context.builder.ts): the knowledge base of a call of an MCP tool.
use shiori_api.Shared.{
  ℕ, ◌≡◌, refl, false, Option, none, some, Str, find, trim, if◌then◌else◌, Bool-cases, Option-cases,
  inl, inr,
}
use shiori_api.Exceptions.{knowledge_base_unauthorized}
use shiori_api.Tenancy.{Result, ok, err}
use shiori_api.Tenancy.Binding.{gives, throws, result-cases}
use shiori_api.KnowledgeBases.Aggregate.{KnowledgeBase}
use shiori_api.KnowledgeBases.Store.{
  Store, M, ◌>>=◌, pure, lift, is_blank, has_hash, validate, find_by_hash,
}
use shiori_api.KnowledgeBases.Queries.{find_view_by_hash, to_view_model}
use shiori_api.KnowledgeBases.Commands.{can_activate, bound}

or_unauthorized : Option KnowledgeBase → M ℕ
or_unauthorized none = lift (err knowledge_base_unauthorized)
or_unauthorized (some k) = pure k.id

unfoldable pub build_context : (Str → Str) → Option Str → M ℕ
unfolding or_unauthorized
build_context hash none = lift (err knowledge_base_unauthorized)
build_context hash (some key) =
    if is_blank (trim key)
    then lift (err knowledge_base_unauthorized)
    else find_view_by_hash (hash key) >>= or_unauthorized

-- a result of the guard, from one of the builder
abbrev pub bind_some : Result ℕ → Result (Option ℕ)
bind_some (ok id) = ok (some id)
bind_some (err e) = err e

-- the two behind the check for a blank key
found_same :
    (hash : Str → Str) (key : Str) (s : Store)
    → let m = find_view_by_hash (hash key) >>= or_unauthorized in
      (find_by_hash (hash key) >>= bound) s ≡ (bind_some (m s).0, (m s).1)
unfolding find_view_by_hash find_by_hash to_view_model or_unauthorized bound
found_same hash key s = elim (Option-cases (find (has_hash (hash key)) s.bases)) [
  | inl e ↦ rw e refl
  | inr (k, e) ↦ elim (result-cases (validate k)) [
    | gives v h ↦ rw (e, h) refl
    | throws x h ↦ rw (e, h) refl
  ]
]

-- The context of an MCP tool is the knowledge base to which the guard of the other transports binds a request with
-- the same header: on every header and store the two give the same identifier or throw the same
-- exception, and leave the same store.
pub build_context-can_activate :
    (hash : Str → Str) (header : Option Str) (s : Store)
    → let (r, s') = build_context hash header s in
      can_activate hash false header s ≡ (bind_some r, s')
unfolding build_context can_activate
build_context-can_activate hash none s = refl
build_context-can_activate hash (some key) s = elim (Bool-cases (is_blank (trim key))) [
  | inl e ↦ rw e refl
  | inr e ↦ rw e (found_same hash key s)
]
