-- ===== src/PublicEmbeddings/Opening.antt =====
-- The constructors of public_embeddings_store.go.
use fileprocessor.Base.{◌⊎◌, inl, inr, true, Option, none, some, [], if◌then◌else◌, Bytes, ℤ, pos}
use fileprocessor.PgVectorStore.{PgHnswConfig, normalize}
use fileprocessor.PgVectorStore.Schema.{int_eq}
use fileprocessor.PublicEmbeddings.{
  EmbeddingsPool, PublicEmbeddingsStore, EmbeddingsError, default_embedding_dim, init_embeddings,
}

module _ {W E V X F : Type 0} where
  unfoldable make_store :
      EmbeddingsPool W E V X F → Option PgHnswConfig → PublicEmbeddingsStore W E V X F
  make_store pool cfg = record { pool = pool; is_open = true; config = normalize cfg; model = [] }

  unfoldable opened_store :
      PublicEmbeddingsStore W E V X F
      → Option (EmbeddingsError E) × W
      → (EmbeddingsError E ⊎ PublicEmbeddingsStore W E V X F) × W
  opened_store s (none, w) = (inr s, w)
  opened_store s (some err, w) = (inl err, w)

  -- `NewPublicEmbeddingsStoreWithPool`: the pool stays open after an error.
  unfoldable new_public_embeddings_store_with_pool :
      EmbeddingsPool W E V X F
      → Option PgHnswConfig
      → W
      → (EmbeddingsError E ⊎ PublicEmbeddingsStore W E V X F) × W
  new_public_embeddings_store_with_pool pool cfg w =
      let s = make_store pool cfg in opened_store s (init_embeddings s w)

  unfoldable close_unless_opened :
      EmbeddingsPool W E V X F
      → (EmbeddingsError E ⊎ PublicEmbeddingsStore W E V X F) × W
      → (EmbeddingsError E ⊎ PublicEmbeddingsStore W E V X F) × W
  close_unless_opened pool (inr s, w) = (inr s, w)
  close_unless_opened pool (inl err, w) = (inl err, pool.close w)

  unfoldable on_new_pool :
      Option PgHnswConfig
      → (E ⊎ EmbeddingsPool W E V X F) × W
      → (EmbeddingsError E ⊎ PublicEmbeddingsStore W E V X F) × W
  on_new_pool cfg (inl err, w) = (inl (EmbeddingsError.open_failed err), w)
  on_new_pool cfg (inr pool, w) =
      close_unless_opened pool (new_public_embeddings_store_with_pool pool cfg w)

  -- `NewPublicEmbeddingsStore`; `new_pool` is that of the package `pgxpool`.
  unfoldable new_public_embeddings_store :
      (new_pool : Bytes → W → (E ⊎ EmbeddingsPool W E V X F) × W) (dsn : Bytes) (dim : ℤ)
      (cfg : Option PgHnswConfig) (w : W)
      → (EmbeddingsError E ⊎ PublicEmbeddingsStore W E V X F) × W
  new_public_embeddings_store new_pool dsn dim cfg w =
      if int_eq dim (pos default_embedding_dim)
      then on_new_pool cfg (new_pool dsn w)
      else (inl (EmbeddingsError.pinned_dimension dim), w)
