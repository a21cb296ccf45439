-- ===== src/KnowledgeBases/Aggregate/Secrecy.antt =====
-- What the events of a knowledge base say of its API key.
use shiori_api.Shared.{
  ◌≡◌, refl, ℕ, ap, ◌∙◌, Option, none, some, [], ◌∷◌, ◌++◌, Str, Bool-cases, inl, inr,
}
use shiori_api.KnowledgeBases.Aggregate.{
  KnowledgeBase, Values, Change, create, delete, update, change_name, change_description,
  rotate_api_key, change_embedding_model, request_reembedding, complete_reembedding,
  fail_reembedding, same_text, when_given, event_data, base_updated,
}

-- the mutators with their arguments; a rotation has the new hash
pub data Operation : Type 0 where
  creates deletes requests_reembedding completes_reembedding fails_reembedding : Operation
  updates : Option Str → Option (Option Str) → Operation
  rotates : Str → Operation
  changes_model : Str → Operation

unfoldable pub apply : Values → ℕ → Operation → KnowledgeBase → Change
unfolding create delete update rotate_api_key change_embedding_model request_reembedding
    complete_reembedding fail_reembedding
apply kit now creates k = create k
apply kit now deletes k = delete k
apply kit now requests_reembedding k = request_reembedding kit now k
apply kit now completes_reembedding k = complete_reembedding kit now k
apply kit now fails_reembedding k = fail_reembedding kit now k
apply kit now (updates name description) k = update kit now name description k
apply kit now (rotates new_hash) k = rotate_api_key kit now new_hash k
apply kit now (changes_model model) k = change_embedding_model kit now model k

-- the same knowledge base with another hash
abbrev pub with_hash : KnowledgeBase → Str → KnowledgeBase
with_hash k hash = record k { api_key_hash = hash }

change_name-with_hash :
    (kit : Values) (now : ℕ) (name : Str) (k : KnowledgeBase) (hash : Str)
    → let (k', es) = change_name kit now name k in
      change_name kit now name (with_hash k hash) ≡ (with_hash k' hash, es)
unfolding change_name
change_name-with_hash kit now name k hash = elim (Bool-cases (kit.equals k.name name)) [
  | inl e ↦ rw e refl
  | inr e ↦ rw e refl
]

change_description-with_hash :
    (kit : Values) (now : ℕ) (description : Option Str) (k : KnowledgeBase) (hash : Str)
    → let (k', es) = change_description kit now description k in
      change_description kit now description (with_hash k hash) ≡ (with_hash k' hash, es)
unfolding change_description
change_description-with_hash kit now description k hash =
    elim (Bool-cases (same_text k.description description)) [
      | inl e ↦ rw e refl
      | inr e ↦ rw e refl
    ]

when_given-with_hash :
    {A : Type 0} (kit : Values) (now : ℕ) (value : Option A) (change : A → KnowledgeBase → Change)
    (hash : Str)
    → ((a : A) (k : KnowledgeBase)
        → change a (with_hash k hash) ≡ (with_hash (change a k).0 hash, (change a k).1))
    → (k : KnowledgeBase)
    → when_given kit now value change (with_hash k hash) ≡ (
      with_hash (when_given kit now value change k).0 hash,
      (when_given kit now value change k).1,
    )
when_given-with_hash kit now none change hash h k = refl
when_given-with_hash kit now (some a) change hash h k = h a k

update-with_hash :
    (kit : Values) (now : ℕ) (name : Option Str) (description : Option (Option Str))
    (k : KnowledgeBase) (hash : Str)
    → (update kit now name description (with_hash k hash)).1 ≡ (update kit now name description k).1
unfolding update
update-with_hash kit now name description k hash =
    let (k', es) = when_given kit now name (change_name kit now) k in
    ap
      (λ (c : Change).
        let d : Change = when_given kit now description (change_description kit now) c.0 in
        c.1 ++ (d.1 ++ base_updated (event_data d.0) ∷ []))
      (when_given-with_hash kit now name (change_name kit now) hash
        (λ a x. change_name-with_hash kit now a x hash) k)
    ∙ ap (λ (d : Change). es ++ (d.1 ++ base_updated (event_data d.0) ∷ []))
        (when_given-with_hash kit now description (change_description kit now) hash
          (λ a x. change_description-with_hash kit now a x hash) k')

apply-with_hash :
    (kit : Values) (now : ℕ) (op : Operation) (k : KnowledgeBase) (hash : Str)
    → (apply kit now op (with_hash k hash)).1 ≡ (apply kit now op k).1
unfolding apply
apply-with_hash kit now (updates name description) k hash =
    update-with_hash kit now name description k hash
apply-with_hash kit now (changes_model model) k hash =
    elim (Bool-cases (kit.equals k.embedding_model model)) [ inl e ↦ rw e refl | inr e ↦ rw e refl ]
apply-with_hash kit now creates k hash = refl
apply-with_hash kit now deletes k hash = refl
apply-with_hash kit now requests_reembedding k hash = refl
apply-with_hash kit now completes_reembedding k hash = refl
apply-with_hash kit now fails_reembedding k hash = refl
apply-with_hash kit now (rotates new_hash) k hash = refl

-- The events of a mutator do not depend on the hash of the API key, neither on the one that the knowledge base has nor, at
-- a rotation, on the new one.
pub apply_hides_key :
    (kit : Values) (now : ℕ) (op : Operation) (k : KnowledgeBase) (hash new_hash new_hash' : Str)
    → ((apply kit now op (with_hash k hash)).1 ≡ (apply kit now op k).1)
      × ((apply kit now (rotates new_hash) (with_hash k hash)).1
          ≡ (apply kit now (rotates new_hash') k).1)
unfolding apply rotate_api_key
apply_hides_key kit now op k hash new_hash new_hash' = (apply-with_hash kit now op k hash, refl)
