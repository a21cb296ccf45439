-- ===== src/Cors.antt =====
-- The allowed origins of cross-origin requests (src/core/config/cors-origins.ts).
pub mod RoundTrip
pub mod Tests
use shiori_api.Shared.{
  ℕ, Bool, true, false, not, Option, none, some, List, [], ◌∷◌, Str, codes, str_eq, trim, filter,
  map, ◌==◌, if◌then◌else◌,
}

pub record Env : Type 0 where
  pub cors_origins : Option Str
  pub frontend_url : Option Str
  pub node_env : Option Str

-- `s.replace(/\/$/, '')`
unfoldable pub drop_slash : Str → Str
drop_slash [] = []
drop_slash (c ∷ []) = if c == b'/' then [] else c ∷ []
drop_slash (c ∷ d ∷ s) = c ∷ drop_slash (d ∷ s)

unfoldable pub normalize_origin : Str → Str
unfolding drop_slash trim
normalize_origin origin = drop_slash (trim origin)

abbrev pub cons_first : ℕ → List Str → List Str
cons_first c [] = (c ∷ []) ∷ []
cons_first c (l ∷ ls) = (c ∷ l) ∷ ls

-- `s.split(',')`
unfoldable pub split_commas : Str → List Str
split_commas [] = [] ∷ []
split_commas (c ∷ s) = elim (c == b',') [
  | true ↦ [] ∷ split_commas s
  | false ↦ cons_first c (split_commas s)
]

-- `Boolean` of a string
abbrev pub nonempty : Str → Bool
nonempty [] = false
nonempty (c ∷ s) = true

unfoldable pub listed_origins : Option Str → List Str
unfolding split_commas normalize_origin
listed_origins none = []
listed_origins (some s) = filter nonempty (map normalize_origin (split_commas s))

abbrev pub is_production : Option Str → Bool
is_production none = false
is_production (some s) = str_eq s (codes "production")

default_origins : Option Str → List Str
default_origins node_env =
    if not (is_production node_env) then codes "http://localhost:3001" ∷ [] else []

frontend_origins : Option Str → Option Str → List Str
unfolding default_origins normalize_origin trim
frontend_origins none node_env = default_origins node_env
frontend_origins (some url) node_env =
    if nonempty (trim url) then normalize_origin (trim url) ∷ [] else default_origins node_env

or_else : List Str → List Str → List Str
or_else [] other = other
or_else (o ∷ os) other = o ∷ os

unfoldable pub resolve_cors_origins : Env → List Str
unfolding listed_origins frontend_origins or_else
resolve_cors_origins env =
    or_else (listed_origins env.cors_origins) (frontend_origins env.frontend_url env.node_env)

-- Whether `validateProductionCorsOrigins` reports nothing.
abbrev pub has_origin : List Str → Bool
has_origin [] = false
has_origin (o ∷ os) = true

unfoldable pub is_valid_in_production : Env → Bool
unfolding resolve_cors_origins
is_valid_in_production env =
    has_origin (resolve_cors_origins (record env { node_env = some (codes "production") }))
