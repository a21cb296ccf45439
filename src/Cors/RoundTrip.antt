-- ===== src/Cors/RoundTrip.antt =====
-- Reading back a list of origins.
use shiori_api.Shared.{
  ◌≡◌, refl, ap, ◌∙◌, true, false, Option, some, List, [], ◌∷◌, ◌++◌, Str, filter, map, All, ◌==◌,
  codes,
}
use shiori_api.Cors.{
  Env, normalize_origin, split_commas, cons_first, nonempty, listed_origins, resolve_cors_origins,
  or_else, has_origin, frontend_origins, is_valid_in_production,
}

-- An origin as it stands between the commas: not empty, without a comma, and normalised.
pub record IsOrigin (o : Str) : Type 0 where
  pub some_text : nonempty o ≡ true
  pub no_comma : All (λ c. (c == b',') ≡ false) o
  pub normalized : normalize_origin o ≡ o

-- `os.join(',')`
abbrev pub join_commas : List Str → Str
join_commas [] = []
join_commas (o ∷ []) = o
join_commas (o ∷ o' ∷ os) = o ++ b',' ∷ join_commas (o' ∷ os)

split-last : (o : Str) → All (λ c. (c == b',') ≡ false) o → split_commas o ≡ o ∷ []
unfolding split_commas
split-last [] h = refl
split-last (c ∷ o) (hc, h) = rw (hc, split_commas) (ap (cons_first c) (split-last o h))

split-comma :
    (o s : Str)
    → All (λ c. (c == b',') ≡ false) o
    → split_commas (o ++ b',' ∷ s) ≡ o ∷ split_commas s
unfolding split_commas
split-comma [] s h = refl
split-comma (c ∷ o) s (hc, h) = rw (hc, split_commas) (ap (cons_first c) (split-comma o s h))

split-join :
    (o : Str) (os : List Str) → All IsOrigin (o ∷ os) → split_commas (join_commas (o ∷ os)) ≡ o ∷ os
split-join o [] (h, _) = split-last o h.no_comma
split-join o (o' ∷ os) (h, hs) =
    split-comma o (join_commas (o' ∷ os)) h.no_comma ∙ ap (λ rest. o ∷ rest) (split-join o' os hs)

normalize_origins :
    (os : List Str) → All IsOrigin os → filter nonempty (map normalize_origin os) ≡ os
normalize_origins [] h = refl
normalize_origins (o ∷ os) (h, hs) =
    rw (h.normalized, h.some_text) (ap (λ rest. o ∷ rest) (normalize_origins os hs))

-- the environment with these origins in CORS_ORIGINS
abbrev pub joined : List Str → Option Str → Option Str → Env
joined os frontend_url node_env = record {
  cors_origins = some (join_commas os);
  frontend_url = frontend_url;
  node_env = node_env;
}

listed-join :
    (o : Str) (os : List Str)
    → All IsOrigin (o ∷ os)
    → listed_origins (some (join_commas (o ∷ os))) ≡ o ∷ os
unfolding listed_origins
listed-join o os h =
    ap (λ pieces. filter nonempty (map normalize_origin pieces)) (split-join o os h)
    ∙ normalize_origins (o ∷ os) h

resolve-join :
    (o : Str) (os : List Str) (frontend_url node_env : Option Str)
    → All IsOrigin (o ∷ os)
    → resolve_cors_origins (joined (o ∷ os) frontend_url node_env) ≡ o ∷ os
unfolding resolve_cors_origins
resolve-join o os frontend_url node_env h =
    ap (λ origins. or_else origins (frontend_origins frontend_url node_env)) (listed-join o os h)

-- A list of one origin or more, each normalised, not empty and without commas, joined by commas in CORS_ORIGINS, is
-- read back as it is, whatever FRONTEND_URL and NODE_ENV are, and production accepts it.
pub resolve_cors_origins-join :
    (o : Str) (os : List Str) (frontend_url node_env : Option Str)
    → All IsOrigin (o ∷ os)
    → let env = joined (o ∷ os) frontend_url node_env in
      (resolve_cors_origins env ≡ o ∷ os) × (is_valid_in_production env ≡ true)
unfolding is_valid_in_production
resolve_cors_origins-join o os frontend_url node_env h = (
  resolve-join o os frontend_url node_env h,
  ap has_origin (resolve-join o os frontend_url (some (codes "production")) h),
)
