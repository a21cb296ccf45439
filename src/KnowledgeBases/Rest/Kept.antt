-- ===== src/KnowledgeBases/Rest/Kept.antt =====
-- The method of a route leaves the knowledge bases alone that are not bound to the request.
use shiori_api.Shared.{
  ℕ, ◌≡◌, refl, ◌∙◌, Bool, true, false, Option, none, some, Str, Bool-cases, inl, inr,
}
use shiori_api.KnowledgeBases.Aggregate.{
  KnowledgeBase, Change, update, delete, rotate_api_key, change_embedding_model,
  request_reembedding, change_name, change_description, is_reembedding, same_text,
}
use shiori_api.KnowledgeBases.Store.{
  M, ◌>>=◌, ◌>>◌, pure, assert_exists, save_base, delete_base, publish,
}
use shiori_api.KnowledgeBases.Store.Kept.{
  Keeps, Any, HasId, Keeps-bind, Keeps-pure, Keeps-assert_exists, Keeps-save_base,
  Keeps-delete_base, Keeps-publish,
}
use shiori_api.KnowledgeBases.Queries.{assert_view_exists}
use shiori_api.KnowledgeBases.Queries.Kept.{Keeps-assert_view_exists}
use shiori_api.KnowledgeBases.Commands.{
  generate_api_key, save_change, assert_model_is_valid, assert_not_reembedding, change_unless,
  execute_update, execute_delete, execute_rotate, execute_change_model, execute_reembed,
}
use shiori_api.KnowledgeBases.Rest.{
  Route, get_own, update_own, delete_own, change_own_model, reembed_own, rotate_own_key,
  Environment, show, own, no_content, rotated, shown, to_response,
}

module _ (env : Environment) (id : ℕ) where
  abbrev pub MovesOwn : Change → Type 0
  MovesOwn change = HasId id change.0

  Keeps-save_change :
      (change : Change)
      → MovesOwn change
      → Keeps id (Any id) (save_change env.valid env.kit env.now change)
  unfolding save_change
  Keeps-save_change change h =
      Keeps-bind id (HasId id) (Any id) (save_base env.valid change.0) (λ _. publish change.1)
        (Keeps-save_base id env.valid change.0 h) (λ _ _. Keeps-publish id change.1)

  -- a command that loads the row, changes it and saves it
  Keeps-change :
      (change : KnowledgeBase → Change)
      → ((k : KnowledgeBase) → HasId id k → MovesOwn (change k))
      → Keeps id
          (Any id)
          (assert_exists env.valid id >>= λ k. save_change env.valid env.kit env.now (change k))
  Keeps-change change h =
      Keeps-bind id (HasId id) (Any id) (assert_exists env.valid id)
        (λ k. save_change env.valid env.kit env.now (change k)) (Keeps-assert_exists id env.valid)
        (λ k hk. Keeps-save_change (change k) (h k hk))

  id-change_name : (new : Str) (k : KnowledgeBase) → (change_name env.kit env.now new k).0.id ≡ k.id
  unfolding change_name
  id-change_name new k = elim (Bool-cases (env.kit.equals k.name new)) [
    | inl e ↦ rw e refl
    | inr e ↦ rw e refl
  ]

  id-change_description :
      (new : Option Str) (k : KnowledgeBase)
      → (change_description env.kit env.now new k).0.id ≡ k.id
  unfolding change_description
  id-change_description new k = elim (Bool-cases (same_text k.description new)) [
    | inl e ↦ rw e refl
    | inr e ↦ rw e refl
  ]

  update-MovesOwn :
      (name : Option Str) (description : Option (Option Str)) (k : KnowledgeBase)
      → HasId id k
      → MovesOwn (update env.kit env.now name description k)
  unfolding update
  update-MovesOwn none none k h = h
  update-MovesOwn (some n) none k h = id-change_name n k ∙ h
  update-MovesOwn none (some d) k h = id-change_description d k ∙ h
  update-MovesOwn (some n) (some d) k h =
      id-change_description d (change_name env.kit env.now n k).0 ∙ id-change_name n k ∙ h

  Keeps-execute_update :
      (name : Option Str) (description : Option (Option Str))
      → Keeps id (Any id) (execute_update env.valid env.kit env.now id name description)
  unfolding execute_update
  Keeps-execute_update name description =
      Keeps-change (update env.kit env.now name description) (update-MovesOwn name description)

  Keeps-execute_delete : Keeps id (Any id) (execute_delete env.valid env.kit env.now id)
  unfolding execute_delete
  Keeps-execute_delete =
      Keeps-bind id (HasId id) (Any id) (assert_exists env.valid id)
        (λ k. delete_base k.id >> publish ((delete k).1)) (Keeps-assert_exists id env.valid)
        (λ k h.
          Keeps-bind id (Any id) (Any id) (delete_base k.id) (λ _. publish ((delete k).1))
            (Keeps-delete_base id k h) (λ _ _. Keeps-publish id ((delete k).1)))

  Keeps-execute_rotate :
      Keeps id (Any id) (execute_rotate env.valid env.kit env.now env.hash env.random id)
  unfolding execute_rotate rotate_api_key
  Keeps-execute_rotate =
      let key = generate_api_key env.random in
      let change = λ (k : KnowledgeBase). rotate_api_key env.kit env.now (env.hash key) k in
      Keeps-bind id (HasId id) (Any id) (assert_exists env.valid id)
        (λ k. save_change env.valid env.kit env.now (change k) >> pure key)
        (Keeps-assert_exists id env.valid)
        (λ k h.
          Keeps-bind id (Any id) (Any id) (save_change env.valid env.kit env.now (change k))
            (λ _. pure key) (Keeps-save_change (change k) h) (λ _ _. Keeps-pure id (Any id) key tt))

  Keeps-assert_not_reembedding : (k : KnowledgeBase) → Keeps id (Any id) (assert_not_reembedding k)
  unfolding assert_not_reembedding
  Keeps-assert_not_reembedding k s = elim (Bool-cases (is_reembedding k.embedding_status)) [
    | inl e ↦ rw e (refl, tt)
    | inr e ↦ rw e (refl, tt)
  ]

  Keeps-assert_model_is_valid :
      (model : Str) → Keeps id (Any id) (assert_model_is_valid env.is_known model)
  unfolding assert_model_is_valid
  Keeps-assert_model_is_valid model s = elim (Bool-cases (env.is_known model)) [
    | inl e ↦ rw e (refl, tt)
    | inr e ↦ rw e (refl, tt)
  ]

  -- a change that a running re-embedding forbids
  Keeps-unless_reembedding :
      (change : KnowledgeBase → Change) (k : KnowledgeBase)
      → MovesOwn (change k)
      → Keeps id
          (Any id)
          (assert_not_reembedding k >> save_change env.valid env.kit env.now (change k))
  Keeps-unless_reembedding change k h =
      Keeps-bind id (Any id) (Any id) (assert_not_reembedding k)
        (λ _. save_change env.valid env.kit env.now (change k)) (Keeps-assert_not_reembedding k)
        (λ _ _. Keeps-save_change (change k) h)

  Keeps-execute_reembed : Keeps id (Any id) (execute_reembed env.valid env.kit env.now id)
  unfolding execute_reembed request_reembedding
  Keeps-execute_reembed =
      let change = λ (k : KnowledgeBase). request_reembedding env.kit env.now k in
      Keeps-bind id (HasId id) (Any id) (assert_exists env.valid id)
        (λ k. assert_not_reembedding k >> save_change env.valid env.kit env.now (change k))
        (Keeps-assert_exists id env.valid) (λ k h. Keeps-unless_reembedding change k h)

  change_embedding_model-MovesOwn :
      (model : Str) (k : KnowledgeBase)
      → HasId id k
      → MovesOwn (change_embedding_model env.kit env.now model k)
  unfolding change_embedding_model
  change_embedding_model-MovesOwn model k h =
      elim (Bool-cases (env.kit.equals k.embedding_model model)) [ inl e ↦ rw e h | inr e ↦ rw e h ]

  Keeps-change_unless :
      (model : Str) (k : KnowledgeBase) (same : Bool)
      → HasId id k
      → Keeps id (Any id) (change_unless env.valid env.kit env.now model k same)
  unfolding change_unless
  Keeps-change_unless model k true h = Keeps-pure id (Any id) tt tt
  Keeps-change_unless model k false h =
      Keeps-unless_reembedding (change_embedding_model env.kit env.now model) k
        (change_embedding_model-MovesOwn model k h)

  Keeps-execute_change_model :
      (model : Str)
      → Keeps id (Any id) (execute_change_model env.valid env.kit env.now env.is_known id model)
  unfolding execute_change_model
  Keeps-execute_change_model model =
      let change = λ (k : KnowledgeBase).
        change_unless env.valid env.kit env.now model k (env.kit.equals k.embedding_model model) in
      Keeps-bind id (HasId id) (Any id) (assert_exists env.valid id)
        (λ k. assert_model_is_valid env.is_known model >> change k)
        (Keeps-assert_exists id env.valid)
        (λ k h.
          Keeps-bind id (Any id) (Any id) (assert_model_is_valid env.is_known model) (λ _. change k)
            (Keeps-assert_model_is_valid model)
            (λ _ _. Keeps-change_unless model k (env.kit.equals k.embedding_model model) h))

  Keeps-show : Keeps id (Any id) (show env id)
  unfolding show
  Keeps-show =
      Keeps-bind id (Any id) (Any id) (assert_view_exists id)
        (λ view. pure (shown (to_response view))) (Keeps-assert_view_exists id)
        (λ view _. Keeps-pure id (Any id) (shown (to_response view)) tt)

  -- a command, then the response that shows the row
  Keeps-then_show :
      {A : Type 0} (m : M A) → Keeps id (Any id) m → Keeps id (Any id) (m >> show env id)
  Keeps-then_show m h = Keeps-bind id (Any id) (Any id) m (λ _. show env id) h (λ _ _. Keeps-show)

  pub Keeps-own : (route : Route) → Keeps id (Any id) (own env route id)
  unfolding own
  Keeps-own get_own = Keeps-show
  Keeps-own (update_own name description) =
      Keeps-then_show (execute_update env.valid env.kit env.now id name description)
        (Keeps-execute_update name description)
  Keeps-own delete_own =
      Keeps-bind id (Any id) (Any id) (execute_delete env.valid env.kit env.now id)
        (λ _. pure no_content) Keeps-execute_delete (λ _ _. Keeps-pure id (Any id) no_content tt)
  Keeps-own (change_own_model model) =
      Keeps-then_show (execute_change_model env.valid env.kit env.now env.is_known id model)
        (Keeps-execute_change_model model)
  Keeps-own reembed_own =
      Keeps-then_show (execute_reembed env.valid env.kit env.now id) Keeps-execute_reembed
  Keeps-own rotate_own_key =
      Keeps-bind id (Any id) (Any id)
        (execute_rotate env.valid env.kit env.now env.hash env.random id)
        (λ api_key. pure (rotated api_key)) Keeps-execute_rotate
        (λ api_key _. Keeps-pure id (Any id) (rotated api_key) tt)
