-- ===== src/Cors/Tests.antt =====
-- Origins of some environments, and the round trip at two origins.
use shiori_api.Shared.{◌≡◌, refl, true, none, some, [], ◌∷◌, Str, codes, is_space, trim}
use shiori_api.Cors.{normalize_origin, resolve_cors_origins, is_valid_in_production}
use shiori_api.Cors.RoundTrip.{IsOrigin, joined, resolve_cors_origins-join}

-- a lone slash is no host, and production accepts the empty origin that it becomes
lone_slash :
    is_valid_in_production
      (record { cors_origins = none; frontend_url = some (codes "/"); node_env = none })
    ≡ true
unfolding is_valid_in_production normalize_origin trim is_space
lone_slash = refl

abbrev first_origin : Str
first_origin = codes "https://a.org"

abbrev second_origin : Str
second_origin = codes "http://b.org"

first_IsOrigin : IsOrigin first_origin
unfolding normalize_origin trim is_space
first_IsOrigin = record {
  some_text = refl;
  no_comma = (
    refl,
    (
      refl,
      (refl, (refl, (refl, (refl, (refl, (refl, (refl, (refl, (refl, (refl, (refl, tt))))))))))),
    ),
  );
  normalized = refl;
}

second_IsOrigin : IsOrigin second_origin
unfolding normalize_origin trim is_space
second_IsOrigin = record {
  some_text = refl;
  no_comma = (
    refl,
    (refl, (refl, (refl, (refl, (refl, (refl, (refl, (refl, (refl, (refl, (refl, tt))))))))))),
  );
  normalized = refl;
}

resolve_cors_origins-join_example :
    let env = joined (first_origin ∷ second_origin ∷ []) none none in
    (resolve_cors_origins env ≡ first_origin ∷ second_origin ∷ [])
    × (is_valid_in_production env ≡ true)
resolve_cors_origins-join_example =
    resolve_cors_origins-join first_origin (second_origin ∷ []) none none
      (first_IsOrigin, (second_IsOrigin, tt))
