-- ===== src/Embeddings/Registry/Tests.antt =====
-- The catalogue at one name.
use shiori_api.Embeddings.Batch.{Item}
use shiori_api.Shared.{◌≡◌, Str, refl, some, codes, List, [], ◌∷◌}
use shiori_api.Embeddings.Registry.{top_k}

limit_kept : top_k 5 20 (some 50) ≡ 20
unfolding top_k
limit_kept = refl

-- two vectors that came back the other way round
abbrev swapped : List (Item Str)
swapped =
    record { index = 1; embedding = codes "b" } ∷ record { index = 0; embedding = codes "a" } ∷ []
