-- ===== src/Embeddings/Storage/Refinement.antt =====
-- EmbeddingTypeOrmWriteRepository as an index: a list of passages for each knowledge base and model, which saving
-- extends and the deletions filter.
use shiori_api.Shared.{
  ℕ, ◌≡◌, refl, ◌∙◌, Bool, true, not, ◌&&◌, List, ◌++◌, ◌==◌, filter, map, some, Str,
}
use shiori_api.Tenancy.{Result, ok, require}
use shiori_api.Embeddings.World.{Joined, Embedding, World, M}
use shiori_api.Embeddings.Storage.{
  EmbeddingAggregate, stamp, save_many, all_owned, table_for, delete_rows, delete_scoped,
  delete_by_document_id, delete_embedding, delete_by_knowledge_base_id,
  delete_by_knowledge_base_id_and_model, is_of,
}
use shiori_api.Embeddings.Search.{candidates}
use shiori_api.Embeddings.Storage.Index.{
  passages, AreFresh, IsFormed, save_many-saved, candidates-saved, saved-IsFormed,
  candidates-delete, delete_rows-IsFormed,
}

-- a call of the repository
pub data Operation : Type 0 where
  save : List EmbeddingAggregate → Operation
  remove_document : ℕ → Operation
  remove_embedding : ℕ → Operation
  remove_base : ℕ → Operation
  remove_model : ℕ → Str → Operation

unfoldable pub concrete : ℕ → Operation → M (Unit {0})
concrete dimensions (save es) = save_many es dimensions
concrete dimensions (remove_document id) = delete_by_document_id id
concrete dimensions (remove_embedding id) = delete_embedding id
concrete dimensions (remove_base kb) = delete_by_knowledge_base_id kb
concrete dimensions (remove_model kb model) = delete_by_knowledge_base_id_and_model kb model

-- the index by knowledge base and model
abbrev pub Index : Type 0
Index = ℕ → Str → List Joined

abbrev without : (Embedding → Bool) → Index → Index
without p index kb model = filter (λ j. not (p j.row)) (index kb model)

-- the call in a frame, on an index
unfoldable pub specified : ℕ → Operation → Index → Index
specified frame (save es) index =
    λ kb model. index kb model ++ filter (λ j. is_of kb model j.row) (passages frame es)
specified frame (remove_document id) index =
    without (λ e. e.document_id == id && e.knowledge_base_id == frame) index
specified frame (remove_embedding id) index =
    without (λ e. e.id == id && e.knowledge_base_id == frame) index
specified frame (remove_base kb) index = without (λ e. e.knowledge_base_id == kb) index
specified frame (remove_model kb model) index = without (is_of kb model) index

-- What a save asks for: documents and chunks that are there, and fresh identifiers.
abbrev pub IsAllowed : ℕ → Operation → World → Type 0
IsAllowed frame (save es) s =
    (all_owned s.documents.documents s.documents.chunks (map (stamp frame) es) ≡ true)
    × AreFresh s.embeddings (map (stamp frame) es)
IsAllowed frame (remove_document id) s = Unit
IsAllowed frame (remove_embedding id) s = Unit
IsAllowed frame (remove_base kb) s = Unit
IsAllowed frame (remove_model kb model) s = Unit

module _ (n dimensions : ℕ) (table : table_for dimensions ≡ ok n) where
  abbrev pub index_of : World → Index
  index_of s kb model = candidates n kb model s

  pub record IsRefined (frame : ℕ) (op : Operation) (s : World) (out : Result (Unit {0}) × World)
      : Type 0 where
    pub done : out.0 ≡ ok tt
    pub formed : IsFormed out.1
    pub index :
        (kb : ℕ) (model : Str) → index_of out.1 kb model ≡ specified frame op (index_of s) kb model

  removed :
      (frame : ℕ) (op : Operation) (s : World) (p : Embedding → Bool)
      → IsFormed s
      → ((kb : ℕ) (model : Str)
          → filter (λ j. not (p j.row)) (index_of s kb model)
            ≡ specified frame op (index_of s) kb model)
      → IsRefined frame op s (ok tt, delete_rows p s)
  removed frame op s p formed spec = record {
    done = refl;
    formed = delete_rows-IsFormed p s formed;
    index = λ kb model. candidates-delete p n kb model s formed ∙ spec kb model;
  }

  -- In tables whose rows have identifiers of their own and whose vectors have rows, a call of the repository in a
  -- frame, which for a save has documents and chunks that are there and fresh identifiers, succeeds, keeps
  -- the tables so, and changes the passages that a search of any knowledge base and model ranges
  -- over in the way that the operation on the index specifies.
  pub operation-IsRefined :
      (frame : ℕ) (op : Operation) (s : World)
      → IsFormed s
      → IsAllowed frame op s
      → IsRefined frame op s (concrete dimensions op (some frame) s)
  unfolding concrete specified delete_by_document_id delete_embedding delete_scoped require
      delete_by_knowledge_base_id delete_by_knowledge_base_id_and_model
  operation-IsRefined frame (save es) s formed (owned, fresh) =
      rw (save_many-saved frame n dimensions es s table owned formed fresh) (record {
        done = refl;
        formed = saved-IsFormed frame n dimensions es s table owned formed fresh;
        index = candidates-saved frame n dimensions es s table owned formed fresh;
      })
  operation-IsRefined frame (remove_document id) s formed allowed =
      removed frame (remove_document id) s
        (λ e. e.document_id == id && e.knowledge_base_id == frame) formed (λ kb' model'. refl)
  operation-IsRefined frame (remove_embedding id) s formed allowed =
      removed frame (remove_embedding id) s (λ e. e.id == id && e.knowledge_base_id == frame) formed
        (λ kb' model'. refl)
  operation-IsRefined frame (remove_base kb) s formed allowed =
      removed frame (remove_base kb) s (λ e. e.knowledge_base_id == kb) formed (λ kb' model'. refl)
  operation-IsRefined frame (remove_model kb model) s formed allowed =
      removed frame (remove_model kb model) s (is_of kb model) formed (λ kb' model'. refl)
