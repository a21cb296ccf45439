-- ===== src/Documents/Store/Ownership.antt =====
-- Which knowledge base an identifier belongs to. A UUID is generated once, for one knowledge base, which is `owner` here; the
-- tables and the queue agree with it, and an action in a frame leaves the rows of the others alone.
pub mod Tables
pub mod Operations
use shiori_api.Shared.{ℕ, ◌≡◌, refl, ◌∙◌, Bool, not, some, List, ◌==◌, filter, All}
use shiori_api.Exceptions.{Exception}
use shiori_api.Tenancy.{Result, ok, err, IfOk}
use shiori_api.Documents.Aggregate.{Document}
use shiori_api.Documents.Store.{
  Chunk, ChunkJob, Store, M, continue, ◌>>=◌, pure, lift, resume, attempt,
}
use shiori_api.Documents.Store.Rows.{IsThere}

-- the rows of the other knowledge bases
abbrev pub other_documents : ℕ → List Document → List Document
other_documents kb = filter (λ d. not (d.knowledge_base_id == kb))

abbrev pub other_chunks : ℕ → List Chunk → List Chunk
other_chunks kb = filter (λ c. not (c.knowledge_base_id == kb))

abbrev pub Any : {A : Type 0} → A → Type 0
Any a = Unit

pub Any-result : {A : Type 0} (r : Result A) → IfOk Any r
Any-result (ok a) = tt
Any-result (err e) = tt

module _ (owner : ℕ → ℕ) where
  abbrev pub OwnsDocument : Document → Type 0
  OwnsDocument d = owner d.id ≡ d.knowledge_base_id

  -- a chunk and the document that it names
  abbrev pub OwnsChunk : Chunk → Type 0
  OwnsChunk c = (owner c.id ≡ c.knowledge_base_id) × (owner c.document_id ≡ c.knowledge_base_id)

  abbrev pub OwnsJob : ChunkJob → Type 0
  OwnsJob j = owner j.document_id ≡ j.knowledge_base_id

  -- Rows and jobs agree with the owner of their identifiers, and the document of every chunk is there.
  pub record IsConsistent (s : Store) : Type 0 where
    pub documents : All OwnsDocument s.documents
    pub chunks : All OwnsChunk s.chunks
    pub jobs : All OwnsJob s.jobs
    pub there : All (IsThere s.documents) s.chunks

  module _ (kb : ℕ) where
    -- what an action in the frame of `kb` leaves
    pub record IsLeft (s t : Store) : Type 0 where
      pub consistent : IsConsistent t
      pub documents : other_documents kb t.documents ≡ other_documents kb s.documents
      pub chunks : other_chunks kb t.chunks ≡ other_chunks kb s.chunks

    pub IsLeft-refl : {s : Store} → IsConsistent s → IsLeft s s
    IsLeft-refl h = record { consistent = h; documents = refl; chunks = refl }

    pub IsLeft-trans : {s t u : Store} → IsLeft s t → IsLeft t u → IsLeft s u
    IsLeft-trans h k = record {
      consistent = k.consistent;
      documents = k.documents ∙ h.documents;
      chunks = k.chunks ∙ h.chunks;
    }

    -- An action that respects the owners, and what it gives.
    abbrev pub Respects : {A : Type 0} → (A → Type 0) → M A → Type 0
    Respects P m =
        (s : Store) → IsConsistent s → IsLeft s (m (some kb) s).1 × IfOk P (m (some kb) s).0

    module _ {A B : Type 0} (P : A → Type 0) (Q : B → Type 0) where
      Respects-continue :
          (r : Result A) (f : A → M B) (s t : Store)
          → ((a : A) → P a → Respects Q (f a))
          → IsLeft s t
          → IfOk P r
          → IsLeft s (continue r f (some kb) t).1 × IfOk Q (continue r f (some kb) t).0
      Respects-continue (ok a) f s t hf h post =
          let (left, given) = hf a post t h.consistent in (IsLeft-trans h left, given)
      Respects-continue (err e) f s t hf h post = (h, tt)

      pub Respects-bind :
          (m : M A) (f : A → M B)
          → Respects P m
          → ((a : A) → P a → Respects Q (f a))
          → Respects Q (m >>= f)
      Respects-bind m f hm hf s h =
          let (left, post) = hm s h in
          Respects-continue (m (some kb) s).0 f s (m (some kb) s).1 hf left post

      Respects-resume :
          (r : Result A) (on_error : Exception → M B) (f : A → M B) (s t : Store)
          → ((e : Exception) → Respects Q (on_error e))
          → ((a : A) → P a → Respects Q (f a))
          → IsLeft s t
          → IfOk P r
          → IsLeft s (resume r on_error f (some kb) t).1
            × IfOk Q (resume r on_error f (some kb) t).0
      Respects-resume (ok a) on_error f s t he hf h post =
          let (left, given) = hf a post t h.consistent in (IsLeft-trans h left, given)
      Respects-resume (err e) on_error f s t he hf h post =
          let (left, given) = he e t h.consistent in (IsLeft-trans h left, given)

      pub Respects-attempt :
          (m : M A) (on_error : Exception → M B) (f : A → M B)
          → Respects P m
          → ((e : Exception) → Respects Q (on_error e))
          → ((a : A) → P a → Respects Q (f a))
          → Respects Q (attempt m on_error f)
      Respects-attempt m on_error f hm he hf s h =
          let (left, post) = hm s h in
          Respects-resume (m (some kb) s).0 on_error f s (m (some kb) s).1 he hf left post

    pub Respects-pure : {A : Type 0} (P : A → Type 0) (a : A) → P a → Respects P (pure a)
    Respects-pure P a h s c = (IsLeft-refl c, h)

    pub Respects-lift :
        {A : Type 0} (P : A → Type 0) (r : Result A) → IfOk P r → Respects P (lift r)
    Respects-lift P r h s c = (IsLeft-refl c, h)
