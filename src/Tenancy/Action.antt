-- ===== src/Tenancy/Action.antt =====
-- Actions of the handlers and jobs on a state: they take the ambient knowledge base and the state, may throw, and
-- what an action wrote before it throws stays written. `run` is KnowledgeBaseContext.run.
use shiori_api.Shared.{ℕ, some}
use shiori_api.Exceptions.{Exception}
use shiori_api.Tenancy.{Result, ok, err, Context, require}

abbrev pub Action : Type 0 → Type 0 → Type 0
Action S A = Context → S → Result A × S

module _ {S : Type 0} where
  abbrev pub continue : {A B : Type 0} → Result A → (A → Action S B) → Action S B
  continue (ok a) f ctx s = f a ctx s
  continue (err e) f ctx s = (err e, s)

  infixl 5 ◌>>=◌ ◌>>◌
  abbrev pub ◌>>=◌ : {A B : Type 0} → Action S A → (A → Action S B) → Action S B
  ◌>>=◌ m f ctx s = let (r, s') = m ctx s in continue r f ctx s'

  abbrev pub ◌>>◌ : {A B : Type 0} → Action S A → Action S B → Action S B
  m >> k = m >>= λ _. k

  abbrev pub pure : {A : Type 0} → A → Action S A
  pure a ctx s = (ok a, s)

  abbrev pub lift : {A : Type 0} → Result A → Action S A
  lift r ctx s = (r, s)

  abbrev pub throw : {A : Type 0} → Exception → Action S A
  throw e ctx s = (err e, s)

  -- `knowledgeBaseContext.run(id, body)`
  abbrev pub run : {A : Type 0} → ℕ → Action S A → Action S A
  run id body ctx s = body (some id) s

  abbrev pub ambient : Action S ℕ
  ambient ctx s = (require ctx, s)

  abbrev pub reading : {A : Type 0} → (Context → S → Result A) → Action S A
  reading f ctx s = (f ctx s, s)

  -- `try { m } catch (error) { on_error(error) }`, then the rest
  abbrev pub resume :
      {A B : Type 0} → Result A → (Exception → Action S B) → (A → Action S B) → Action S B
  resume (ok a) on_error rest ctx s = rest a ctx s
  resume (err e) on_error rest ctx s = on_error e ctx s

  abbrev pub attempt :
      {A B : Type 0} → Action S A → (Exception → Action S B) → (A → Action S B) → Action S B
  attempt m on_error rest ctx s = let (r, s') = m ctx s in resume r on_error rest ctx s'

-- An action on a part of the state, `get` and `set`.
abbrev pub within : {S T A : Type 0} → (S → T) → (T → S → S) → Action T A → Action S A
within get set m ctx s = let (r, t) = m ctx (get s) in (r, set t s)
