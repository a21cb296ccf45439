-- ===== src/Embeddings/Storage/Building.antt =====
-- What EmbeddingBuilder.build takes over.
use shiori_api.Shared.{◌≡◌, refl, ◌==◌, ◌&&◌, Bool-cases, inl, inr, subst}
use shiori_api.Tenancy.{Result, ok, err, IfOk}
use shiori_api.Embeddings.World.{Vector, Kit}
use shiori_api.Embeddings.Storage.{
  EmbeddingBuilder, EmbeddingAggregate, validate, with_values, build_validated, build,
}

module _ (kit : Kit) (b : EmbeddingBuilder) where
  abbrev HasMetadata : EmbeddingAggregate → Type 0
  HasMetadata a = a.metadata ≡ b.metadata

  with_values-IfOk : (v : Vector) → IfOk HasMetadata (with_values kit b v)
  unfolding with_values
  with_values-IfOk v = elim (Bool-cases (b.dimensions == 0)) [
    | inl e ↦ rw e tt
    | inr e ↦
        rw e
          (elim (Bool-cases (
            kit.accepts_text b.metadata.chunk_text
            && kit.accepts_position b.metadata.chunk_position)) [
              | inr e' ↦ rw e' tt
              | inl e' ↦ rw e' (elim (Bool-cases (kit.accepts_vector v b.dimensions)) [
                | inr f ↦ rw f tt
                | inl f ↦ rw f (elim (Bool-cases (kit.accepts_model b.metadata.model)) [
                  | inr g ↦ rw g tt
                  | inl g ↦ rw g refl
                ])
              ])
            ])
  ]

  build_validated-IfOk : (r : Result Vector) → IfOk HasMetadata (build_validated kit b r)
  unfolding build_validated
  build_validated-IfOk (ok v) = with_values-IfOk v
  build_validated-IfOk (err e) = tt

  pub metadata-build : (a : EmbeddingAggregate) → build kit b ≡ ok a → a.metadata ≡ b.metadata
  unfolding build
  metadata-build a h = subst (IfOk HasMetadata) h (build_validated-IfOk (validate b))
