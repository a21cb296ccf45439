-- ===== src/KnowledgeBases/Graphql.antt =====
-- KnowledgeBaseMutationsResolver, for the knowledge base that the guard has bound to the request
-- (src/contexts/knowledge-bases/transport/graphql/resolvers/knowledge-base-mutations.resolver.ts).
use shiori_api.Shared.{ℕ, ◌≡◌, refl, Option, Str, codes, find, ◌==◌, Option-cases, inl, inr}
use shiori_api.Tenancy.{Result, ok, err}
use shiori_api.Tenancy.Binding.{gives, throws, result-cases}
use shiori_api.KnowledgeBases.Aggregate.{KnowledgeBase}
use shiori_api.KnowledgeBases.Store.{Store, M, continue, ◌>>=◌, ◌>>◌, pure, validate}
use shiori_api.KnowledgeBases.Queries.{assert_view_exists, find_view, to_view_model}
use shiori_api.KnowledgeBases.Commands.{
  execute_update, execute_delete, execute_change_model, execute_reembed, execute_rotate,
}
use shiori_api.KnowledgeBases.Rest.{
  Route, update_own, delete_own, change_own_model, reembed_own, rotate_own_key, Environment, show,
  own, no_content, rotated,
}

-- the mutations with their inputs; the creation is that of the controller
data Mutation : Type 0 where
  update_mutation : Option Str → Option (Option Str) → Mutation
  delete_mutation : Mutation
  change_model_mutation : Str → Mutation
  reembed_mutation : Mutation
  rotate_mutation : Mutation

-- MutationResponseDto, and the DTO of a rotated key
data MutationResponse : Type 0 where
  succeeded : Str → ℕ → MutationResponse
  rotated_key : Str → MutationResponse

module _ (env : Environment) where
  unfoldable mutate : Mutation → ℕ → M MutationResponse
  mutate (update_mutation name description) id = do
    execute_update env.valid env.kit env.now id name description
    pure (succeeded (codes "Knowledge base updated successfully") id)
  mutate delete_mutation id = do
    execute_delete env.valid env.kit env.now id
    pure (succeeded (codes "Knowledge base deleted successfully") id)
  mutate (change_model_mutation model) id = do
    execute_change_model env.valid env.kit env.now env.is_known id model
    pure (succeeded (codes "Knowledge base embedding model change requested") id)
  mutate reembed_mutation id = do
    execute_reembed env.valid env.kit env.now id
    pure (succeeded (codes "Knowledge base reembedding requested") id)
  mutate rotate_mutation id = do
    api_key ← execute_rotate env.valid env.kit env.now env.hash env.random id
    pure (rotated_key api_key)

  -- the route that does what a mutation does
  unfoldable route_of : Mutation → Route
  route_of (update_mutation name description) = update_own name description
  route_of delete_mutation = delete_own
  route_of (change_model_mutation model) = change_own_model model
  route_of reembed_mutation = reembed_own
  route_of rotate_mutation = rotate_own_key

  -- the same rows and the same events
  abbrev SameEffect : Store → Store → Type 0
  SameEffect s t = (s.bases ≡ t.bases) × (s.events ≡ t.events)

  show-SameEffect : (id : ℕ) (s : Store) → SameEffect (show env id s).1 s
  unfolding show assert_view_exists find_view to_view_model
  show-SameEffect id s = elim (Option-cases (find (λ (k : KnowledgeBase). k.id == id) s.bases)) [
    | inl e ↦ rw e (refl, refl)
    | inr (k, e) ↦ elim (result-cases (validate k)) [
      | gives v h ↦ rw (e, h) (refl, refl)
      | throws x h ↦ rw (e, h) (refl, refl)
    ]
  ]

  pures-SameEffect :
      {A B C : Type 0} (r : Result A) (f : A → B) (g : A → C) (s : Store)
      → SameEffect (continue r (λ a. pure (f a)) s).1 (continue r (λ a. pure (g a)) s).1
  pures-SameEffect (ok a) f g s = (refl, refl)
  pures-SameEffect (err e) f g s = (refl, refl)

  then-SameEffect :
      (id : ℕ) (r : Result (Unit {0})) (response : MutationResponse) (s : Store)
      → SameEffect (continue r (λ _. show env id) s).1 (continue r (λ _. pure response) s).1
  then-SameEffect id (ok _) response s = show-SameEffect id s
  then-SameEffect id (err e) response s = (refl, refl)

  -- A mutation has the effect of the route of the controller for the same command: it leaves the same knowledge bases
  -- and the same events, whether it succeeds or fails.
  mutate-SameEffect :
      (mutation : Mutation) (id : ℕ) (s : Store)
      → SameEffect (own env (route_of mutation) id s).1 (mutate mutation id s).1
  unfolding own mutate route_of
  mutate-SameEffect (update_mutation name description) id s =
      let (r, t) = execute_update env.valid env.kit env.now id name description s in
      then-SameEffect id r (succeeded (codes "Knowledge base updated successfully") id) t
  mutate-SameEffect delete_mutation id s =
      let (r, t) = execute_delete env.valid env.kit env.now id s in
      pures-SameEffect r (λ _. no_content)
        (λ _. succeeded (codes "Knowledge base deleted successfully") id) t
  mutate-SameEffect (change_model_mutation model) id s =
      let (r, t) = execute_change_model env.valid env.kit env.now env.is_known id model s in
      then-SameEffect id r (succeeded (codes "Knowledge base embedding model change requested") id)
        t
  mutate-SameEffect reembed_mutation id s =
      let (r, t) = execute_reembed env.valid env.kit env.now id s in
      then-SameEffect id r (succeeded (codes "Knowledge base reembedding requested") id) t
  mutate-SameEffect rotate_mutation id s =
      let (r, t) = execute_rotate env.valid env.kit env.now env.hash env.random id s in
      pures-SameEffect r (λ api_key. rotated api_key) (λ api_key. rotated_key api_key) t
