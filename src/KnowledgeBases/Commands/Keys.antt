-- ===== src/KnowledgeBases/Commands/Keys.antt =====
-- API keys and their rotation.
use shiori_api.Shared.{
  ℕ, ◌≡◌, refl, sym, ◌∙◌, ap, Bool, true, false, none, some, List, [], ◌∷◌, ◌++◌, Str, str_eq_refl,
  ==_refl, ◌==◌, filter, find, All, Bool-cases, inl, inr, if◌then◌else◌, is_sole, is_other,
  sole-cases, length, ink, ink-trim, is_space, find-sole, sole-holds, find-none_of_filter, trim,
  arith,
}
use shiori_api.Exceptions.{knowledge_base_unauthorized}
use shiori_api.Tenancy.{ok, err, upsert}
use shiori_api.KnowledgeBases.Aggregate.{
  rotate_api_key, KnowledgeBase, Values, touch, event_data, base_api_key_rotated,
}
use shiori_api.KnowledgeBases.Store.{Store, is_blank, build, has_hash}
use shiori_api.KnowledgeBases.Commands.{generate_api_key, execute_rotate, can_activate}

-- What the builder asks of the fields.
pub record IsBuildable (valid : KnowledgeBase → Bool) (k : KnowledgeBase) : Type 0 where
  pub has_name : is_blank k.name ≡ false
  pub has_key_hash : is_blank k.api_key_hash ≡ false
  pub has_model : is_blank k.embedding_model ≡ false
  pub valid_values : valid k ≡ true

pub build-IsBuildable :
    (valid : KnowledgeBase → Bool) (k : KnowledgeBase) → IsBuildable valid k → build valid k ≡ ok k
unfolding build
build-IsBuildable valid k h = rw (h.has_name, h.has_key_hash, h.has_model, h.valid_values) refl

-- whether a row has a primary key
abbrev pub is_base : ℕ → KnowledgeBase → Bool
is_base id k = k.id == id

module _ (k k' : KnowledgeBase) (same : k'.id ≡ k.id) where
  upsert-step :
      (x : KnowledgeBase) (ks : List KnowledgeBase)
      → upsert (λ y. y.id) k' (x ∷ ks)
        ≡ (if is_base k.id x then k' ∷ ks else x ∷ upsert (λ y. y.id) k' ks)
  upsert-step x ks = ap (λ i. if x.id == i then k' ∷ ks else x ∷ upsert (λ y. y.id) k' ks) same

  -- what was saved is found
  pub find-saved :
      (ks : List KnowledgeBase) → find (is_base k.id) (upsert (λ y. y.id) k' ks) ≡ some k'
  find-saved [] = rw (ap (λ i. i == k.id) same ∙ ==_refl k.id) refl
  find-saved (x ∷ ks) =
      ap (find (is_base k.id)) (upsert-step x ks) ∙ elim (Bool-cases (is_base k.id x)) [
        | inl e ↦ rw e (rw (ap (λ i. i == k.id) same ∙ ==_refl k.id) refl)
        | inr e ↦ rw e (rw e (find-saved ks))
      ]

  -- what was saved is the sole row of its key
  pub upsert-sole :
      (ks : List KnowledgeBase)
      → filter (is_base k.id) ks ≡ k ∷ []
      → filter (is_base k.id) (upsert (λ y. y.id) k' ks) ≡ k' ∷ []
  upsert-sole [] h = rw (ap (λ i. i == k.id) same ∙ ==_refl k.id) refl
  upsert-sole (x ∷ ks) h =
      ap (filter (is_base k.id)) (upsert-step x ks) ∙ elim (sole-cases (is_base k.id) k x ks h) [
        | is_sole e eq none' ↦
            rw e (rw (ap (λ i. i == k.id) same ∙ ==_refl k.id) (ap (λ rest. k' ∷ rest) none'))
        | is_other e rest ↦ rw e (rw e (upsert-sole ks rest))
      ]

  -- a hash that only the new row has
  find-new :
      (hash : Str) (ks : List KnowledgeBase)
      → has_hash hash k' ≡ true
      → All (λ x. has_hash hash x ≡ false) ks
      → find (has_hash hash) (upsert (λ y. y.id) k' ks) ≡ some k'
  find-new hash [] new h = rw new refl
  find-new hash (x ∷ ks) new (hx, h) =
      ap (find (has_hash hash)) (upsert-step x ks) ∙ elim (Bool-cases (is_base k.id x)) [
        | inl e ↦ rw e (rw new refl)
        | inr e ↦ rw e (rw hx (find-new hash ks new h))
      ]

  -- a hash that only the old row had
  find-old :
      (hash : Str) (ks : List KnowledgeBase)
      → has_hash hash k' ≡ false
      → filter (is_base k.id) ks ≡ k ∷ []
      → filter (has_hash hash) ks ≡ k ∷ []
      → find (has_hash hash) (upsert (λ y. y.id) k' ks) ≡ none
  find-old hash [] old row holder = rw old refl
  find-old hash (x ∷ ks) old row holder =
      ap (find (has_hash hash)) (upsert-step x ks) ∙ elim (sole-cases (is_base k.id) k x ks row) [
        | is_sole e is_k rest ↦ rw e (
            rw old (
              find-none_of_filter (has_hash hash) ks
                (elim (sole-cases (has_hash hash) k x ks holder) [
                  | is_sole e' is_k' rest' ↦ rest'
                  | is_other e' rest' ↦
                      let c =
                        sym e' ∙ ap (has_hash hash) is_k ∙ sole-holds (has_hash hash) k ks rest' in
                      ground arith
                ])))
        | is_other e rest ↦ rw e (elim (sole-cases (has_hash hash) k x ks holder) [
          | is_sole e' is_k' rest' ↦
              let c = sym e ∙ ap (is_base k.id) is_k' ∙ ==_refl k.id in ground arith
          | is_other e' rest' ↦ rw e' (find-old hash ks old rest rest')
        ])
      ]

blank_nil : (t : Str) → is_blank t ≡ true → t ≡ []
blank_nil [] h = refl
blank_nil (c ∷ t) h = ground arith

-- A generated key is not blank.
generated_text : (random : Str) → is_blank (trim (generate_api_key random)) ≡ false
unfolding ink is_space
generated_text random = elim (Bool-cases (is_blank (trim (generate_api_key random)))) [
  | inl e ↦
      let c = ap length (sym (ink-trim (generate_api_key random)) ∙ ap ink (blank_nil _ e)) in
      ground arith
  | inr e ↦ e
]

module _ (valid : KnowledgeBase → Bool) (kit : Values) (now : ℕ) (hash : Str → Str) (random : Str)
    (k : KnowledgeBase) where
  -- the aggregate with the new key
  abbrev pub rotated : KnowledgeBase
  rotated = touch kit now (record k { api_key_hash = hash (generate_api_key random) })

  abbrev pub after_rotate : Store → Store
  after_rotate s = record s {
    bases = upsert (λ x. x.id) rotated s.bases;
    builder = rotated;
    events = s.events ++ base_api_key_rotated (event_data rotated) ∷ [];
  }

  execute_rotate-rotated :
      (s : Store)
      → filter (is_base k.id) s.bases ≡ k ∷ []
      → IsBuildable valid k
      → IsBuildable valid rotated
      → execute_rotate valid kit now hash random k.id s
        ≡ (ok (generate_api_key random), after_rotate s)
  unfolding execute_rotate rotate_api_key
  execute_rotate-rotated s row buildable buildable' =
      rw
        (
          find-sole (is_base k.id) k s.bases row,
          build-IsBuildable valid k buildable,
          build-IsBuildable valid rotated buildable',
        )
        refl

  can_activate-new :
      (s : Store)
      → IsBuildable valid rotated
      → All (λ x. has_hash (hash (generate_api_key random)) x ≡ false) s.bases
      → (can_activate hash false (some (generate_api_key random)) (after_rotate s)).0
        ≡ ok (some k.id)
  unfolding can_activate
  can_activate-new s buildable fresh =
      rw
        (
          generated_text random,
          find-new k rotated refl (hash (generate_api_key random)) s.bases
              (str_eq_refl (hash (generate_api_key random))) fresh,
          buildable.has_name,
          buildable.has_key_hash,
          buildable.has_model,
        )
        refl

  can_activate-old :
      (old_key : Str) (s : Store)
      → is_blank (trim old_key) ≡ false
      → filter (is_base k.id) s.bases ≡ k ∷ []
      → filter (has_hash (hash old_key)) s.bases ≡ k ∷ []
      → has_hash (hash old_key) rotated ≡ false
      → (can_activate hash false (some old_key) (after_rotate s)).0
        ≡ err knowledge_base_unauthorized
  unfolding can_activate
  can_activate-old old_key s text row holder other =
      rw (text, find-old k rotated refl (hash old_key) s.bases other row holder) refl

  -- RotateKnowledgeBaseApiKey on a row with a primary key of its own, whose fields the builder takes before and
  -- after, where no row has the hash of the new key and no other row that of the old key, and the two
  -- hashes differ: the new key is returned and opens the knowledge base's frame at the
  -- guard, and the old key, if it is not blank, is refused.
  pub rotation_replaces_key :
      (old_key : Str) (s : Store)
      → filter (is_base k.id) s.bases ≡ k ∷ []
      → IsBuildable valid k
      → IsBuildable valid rotated
      → All (λ x. has_hash (hash (generate_api_key random)) x ≡ false) s.bases
      → filter (has_hash (hash old_key)) s.bases ≡ k ∷ []
      → has_hash (hash old_key) rotated ≡ false
      → is_blank (trim old_key) ≡ false
      → let out = execute_rotate valid kit now hash random k.id s in
        (out.0 ≡ ok (generate_api_key random))
        × ((can_activate hash false (some (generate_api_key random)) out.1).0 ≡ ok (some k.id))
        × ((can_activate hash false (some old_key) out.1).0 ≡ err knowledge_base_unauthorized)
  rotation_replaces_key old_key s row buildable buildable' fresh holder other text =
      let out = execute_rotate-rotated s row buildable buildable' in
      (
        ap (λ r. r.0) out,
        ap (λ r. (can_activate hash false (some (generate_api_key random)) r.1).0) out
            ∙ can_activate-new s buildable' fresh,
        ap (λ r. (can_activate hash false (some old_key) r.1).0) out
            ∙ can_activate-old old_key s text row holder other,
      )
