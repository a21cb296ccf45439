-- ===== src/KnowledgeBases/Store/Kept.antt =====
-- Actions that leave alone all knowledge bases but one.
use shiori_api.Shared.{
  ℕ, ◌≡◌, refl, ap, ◌∙◌, Bool, not, Option, none, some, List, [], ◌∷◌, ◌==◌, ==_iff, ==_refl, arith,
  filter, find, All-intro, Bool-cases, inl, inr, filter-filter,
}
use shiori_api.Tenancy.{Result, ok, err, IfOk}
use shiori_api.Tenancy.Isolation.{table-save}
use shiori_api.KnowledgeBases.Aggregate.{KnowledgeBase, Event}
use shiori_api.KnowledgeBases.Store.{
  Store, M, continue, ◌>>=◌, pure, lift, build, to_domain, to_domain_found, find_base, or_not_found,
  assert_exists, save_base, delete_base, publish, built, validate,
}

module _ (id : ℕ) where
  abbrev pub other : KnowledgeBase → Bool
  other k = not (k.id == id)

  -- An action that leaves the other knowledge bases alone, with what it gives.
  abbrev pub Keeps : {A : Type 0} → (A → Type 0) → M A → Type 0
  Keeps P m = (s : Store) → (filter other (m s).1.bases ≡ filter other s.bases) × IfOk P (m s).0

  abbrev pub Any : {A : Type 0} → A → Type 0
  Any a = Unit

  pub Any-result : {A : Type 0} (r : Result A) → IfOk Any r
  Any-result (ok a) = tt
  Any-result (err e) = tt

  module _ {A B : Type 0} (P : A → Type 0) (Q : B → Type 0) where
    Keeps-continue :
        (r : Result A) (f : A → M B) (s t : Store)
        → ((a : A) → P a → Keeps Q (f a))
        → filter other t.bases ≡ filter other s.bases
        → IfOk P r
        → (filter other (continue r f t).1.bases ≡ filter other s.bases) × IfOk Q (continue r f t).0
    Keeps-continue (ok a) f s t hf h post = let (kept, given) = hf a post t in (kept ∙ h, given)
    Keeps-continue (err e) f s t hf h post = (h, tt)

    pub Keeps-bind :
        (m : M A) (f : A → M B) → Keeps P m → ((a : A) → P a → Keeps Q (f a)) → Keeps Q (m >>= f)
    Keeps-bind m f hm hf s =
        let (kept, post) = hm s in Keeps-continue (m s).0 f s (m s).1 hf kept post

  pub Keeps-pure : {A : Type 0} (P : A → Type 0) (a : A) → P a → Keeps P (pure a)
  Keeps-pure P a h s = (refl, h)

  pub Keeps-lift : {A : Type 0} (P : A → Type 0) (r : Result A) → IfOk P r → Keeps P (lift r)
  Keeps-lift P r h s = (refl, h)

  -- a knowledge base with this identifier
  abbrev pub HasId : KnowledgeBase → Type 0
  HasId k = k.id ≡ id

  built-HasId :
      (valid : KnowledgeBase → Bool) (k : KnowledgeBase) (r : Result (Unit {0}))
      → HasId k
      → IfOk HasId (built valid k r)
  unfolding built
  built-HasId valid k (err e) h = tt
  built-HasId valid k (ok _) h = elim (Bool-cases (valid k)) [ inl e ↦ rw e h | inr e ↦ rw e tt ]

  build-HasId :
      (valid : KnowledgeBase → Bool) (k : KnowledgeBase) → HasId k → IfOk HasId (build valid k)
  unfolding build
  build-HasId valid k h = built-HasId valid k (validate k) h

  Keeps-to_domain :
      (valid : KnowledgeBase → Bool) (k : KnowledgeBase) → HasId k → Keeps HasId (to_domain valid k)
  unfolding to_domain
  Keeps-to_domain valid k h s = (refl, build-HasId valid k h)

  -- a row that is found
  abbrev FoundHasId : Option KnowledgeBase → Type 0
  FoundHasId none = Unit
  FoundHasId (some k) = HasId k

  find-FoundHasId : (ks : List KnowledgeBase) → FoundHasId (find (λ k. k.id == id) ks)
  find-FoundHasId [] = tt
  find-FoundHasId (k ∷ ks) = elim (Bool-cases (k.id == id)) [
    | inl e ↦ rw e ((==_iff k.id id).0 e)
    | inr e ↦ rw e (find-FoundHasId ks)
  ]

  Keeps-to_domain_found :
      (valid : KnowledgeBase → Bool) (found : Option KnowledgeBase)
      → FoundHasId found
      → Keeps FoundHasId (to_domain_found valid found)
  unfolding to_domain_found
  Keeps-to_domain_found valid none h = Keeps-pure FoundHasId none tt
  Keeps-to_domain_found valid (some k) h =
      Keeps-bind HasId FoundHasId (to_domain valid k) (λ d. pure (some d))
        (Keeps-to_domain valid k h) (λ d hd. Keeps-pure FoundHasId (some d) hd)

  module _ (valid : KnowledgeBase → Bool) where
    Keeps-or_not_found :
        (found : Option KnowledgeBase)
        → FoundHasId found
        → Keeps HasId (or_not_found valid id found)
    unfolding or_not_found
    Keeps-or_not_found none h s = (refl, tt)
    Keeps-or_not_found (some k) h s = (refl, h)

    pub Keeps-assert_exists : Keeps HasId (assert_exists valid id)
    unfolding assert_exists find_base
    Keeps-assert_exists =
        Keeps-bind FoundHasId HasId (find_base valid id) (or_not_found valid id)
          (λ s.
            Keeps-to_domain_found valid (find (λ k. k.id == id) s.bases) (find-FoundHasId s.bases)
              s)
          Keeps-or_not_found

  pub Keeps-save_base :
      (valid : KnowledgeBase → Bool) (k : KnowledgeBase) → HasId k → Keeps HasId (save_base valid k)
  unfolding save_base to_domain
  Keeps-save_base valid k h s = (
    table-save (λ x. x.id) other k s.bases (ap (λ i. not (i == id)) h ∙ rw (==_refl id) refl)
        (All-intro (λ x t. ap (λ i. x.id == i) h ∙ ground (arith, t)) s.bases),
    build-HasId valid k h,
  )

  pub Keeps-delete_base : (k : KnowledgeBase) → HasId k → Keeps Any (delete_base k.id)
  unfolding delete_base
  Keeps-delete_base k h s = (
    filter-filter other (λ x. not (x.id == k.id)) s.bases (λ x t. ap (λ i. not (x.id == i)) h ∙ t),
    tt,
  )

  pub Keeps-publish : (es : List Event) → Keeps Any (publish es)
  unfolding publish
  Keeps-publish es s = (refl, tt)
