-- ===== src/KnowledgeBases/Queries/Kept.antt =====
-- A read leaves the knowledge bases alone.
use shiori_api.Shared.{ℕ, refl, Option, none, some, ◌==◌, find}
use shiori_api.KnowledgeBases.Aggregate.{KnowledgeBase}
use shiori_api.KnowledgeBases.Store.{◌>>◌, pure, lift, validate}
use shiori_api.KnowledgeBases.Store.Kept.{
  Keeps, Any, Any-result, Keeps-bind, Keeps-pure, Keeps-lift,
}
use shiori_api.KnowledgeBases.Queries.{
  load, to_view_model, to_view_model_found, find_view, view_or_not_found, assert_view_exists,
}

module _ (id : ℕ) where
  Keeps-to_view_model : (k : KnowledgeBase) → Keeps id (Any id) (to_view_model k)
  unfolding to_view_model
  Keeps-to_view_model k =
      Keeps-bind id (Any id) (Any id) (load k) (λ _. lift (validate k) >> pure k) (λ s. (refl, tt))
        (λ _ _.
          Keeps-bind id (Any id) (Any id) (lift (validate k)) (λ _. pure k)
            (Keeps-lift id (Any id) (validate k) (Any-result id (validate k)))
            (λ _ _. Keeps-pure id (Any id) k tt))

  Keeps-to_view_model_found :
      (found : Option KnowledgeBase) → Keeps id (Any id) (to_view_model_found found)
  unfolding to_view_model_found
  Keeps-to_view_model_found none = λ s. (refl, tt)
  Keeps-to_view_model_found (some k) =
      Keeps-bind id (Any id) (Any id) (to_view_model k) (λ v. pure (some v)) (Keeps-to_view_model k)
        (λ v _ s. (refl, tt))

  Keeps-view_or_not_found :
      (found : Option KnowledgeBase) → Keeps id (Any id) (view_or_not_found id found)
  unfolding view_or_not_found
  Keeps-view_or_not_found none s = (refl, tt)
  Keeps-view_or_not_found (some k) s = (refl, tt)

  pub Keeps-assert_view_exists : Keeps id (Any id) (assert_view_exists id)
  unfolding assert_view_exists find_view
  Keeps-assert_view_exists =
      Keeps-bind id (Any id) (Any id) (find_view id) (view_or_not_found id)
        (λ s. Keeps-to_view_model_found (find (λ k. k.id == id) s.bases) s)
        (λ found _. Keeps-view_or_not_found found)
