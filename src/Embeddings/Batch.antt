-- ===== src/Embeddings/Batch.antt =====
-- src/contexts/embeddings/infrastructure/services/openai-compatible-embedding.service.ts: a batch of texts, whose vectors come
-- back in any order, each with the index of its text. The HTTP call is a parameter.
use shiori_api.Shared.{
  ℕ, Bool, Option, none, some, List, [], ◌∷◌, Str, map, ◌≡◌, sort_by, IsSortedFrom, count,
  sort_by-IsSortedFrom, count-sort_by,
}

pub record Item (V : Type 0) : Type 0 where
  pub index : ℕ
  pub embedding : V

module _ {V : Type 0} where
  abbrev pub index_of : Item V → ℕ
  index_of item = item.index

  -- `[...items].sort((a, b) => a.index - b.index)`
  unfoldable pub sort_by_index : List (Item V) → List (Item V)
  unfolding sort_by
  sort_by_index items = sort_by index_of items

  unfoldable pub embed_batch : (List Str → Str → List (Item V)) → List Str → Str → List V
  unfolding sort_by_index
  embed_batch post texts model = map (λ item. item.embedding) (sort_by_index (post texts model))

  first_vector : List V → Option V
  first_vector [] = none
  first_vector (v ∷ vs) = some v

  unfoldable pub embed : (List Str → Str → List (Item V)) → Str → Str → Option V
  unfolding embed_batch first_vector
  embed post text model = first_vector (embed_batch post (text ∷ []) model)

  -- The items of a response are put in the order of their indices, and as many of them pass any test as did
  -- before.
  pub sort_by_index-IsSortedFrom :
      (items : List (Item V)) (p : Item V → Bool)
      → IsSortedFrom index_of 0 (sort_by_index items)
        × (count p (sort_by_index items) ≡ count p items)
  unfolding sort_by_index
  sort_by_index-IsSortedFrom items p =
      (sort_by-IsSortedFrom index_of items, count-sort_by index_of p items)
