-- ===== src/PublicEmbeddings/Writes.antt =====
-- The upserts and deletions of public_embeddings_store.go.
use fileprocessor.Base.{
  ℕ, ◌⊎◌, inl, inr, Option, none, some, List, [], ◌∷◌, ◌==◌, if◌then◌else◌, Bytes, codes, length,
}
use fileprocessor.PgVectorStore.{Argument, VectorItem}
use fileprocessor.PublicEmbeddings.{
  PublicEmbeddingsStore, EmbeddingsError, default_embedding_dim, named_error, model_tag,
}

abbrev upsert_embedding_sql : Bytes
upsert_embedding_sql =
    codes
      "INSERT INTO public.embeddings (chunk_id, embeddings, model)\n\t\t  VALUES ($1, $2, $3)\n\t\t  ON CONFLICT (chunk_id) DO UPDATE\n\t\t  SET embeddings = EXCLUDED.embeddings,\n\t\t      model = EXCLUDED.model"

-- The items whose embedding has another dimension; the first of them is reported.
unfoldable find_unpinned : {V : Type 0} → List (VectorItem V) → Option ℕ
find_unpinned [] = none
find_unpinned (item ∷ items) =
    let rest = find_unpinned items in
    if length item.embedding == default_embedding_dim then rest else some (length item.embedding)

module _ {W E V X F : Type 0} (s : PublicEmbeddingsStore W E V X F) where
  unfoldable embedding_arguments : VectorItem V → List (Argument V)
  embedding_arguments item =
      Argument.text_argument item.id
      ∷ Argument.vector_argument item.embedding
      ∷ Argument.text_argument (model_tag s)
      ∷ []

  -- `Upsert`: the file of the item is not stored.
  unfoldable upsert_embedding : VectorItem V → W → Option (EmbeddingsError E) × W
  upsert_embedding item w =
      if length item.embedding == default_embedding_dim
      then named_error EmbeddingsError.statement_failed
          (s.pool.exec upsert_embedding_sql (embedding_arguments item) w)
      else (some (EmbeddingsError.embedding_dimension (length item.embedding)), w)

  -- The rows that are copied.
  unfoldable embedding_rows : List (VectorItem V) → List (Bytes × (List V × Bytes))
  embedding_rows [] = []
  embedding_rows (item ∷ items) = (item.id, (item.embedding, model_tag s)) ∷ embedding_rows items

  -- The deferred rollback.
  unfoldable roll_back_embeddings :
      X → Option (EmbeddingsError E) × W → Option (EmbeddingsError E) × W
  roll_back_embeddings tx (result, w) = (result, s.pool.rollback tx w)

  unfoldable after_embedding_row :
      Bytes × (W → Option (EmbeddingsError E) × W) → Option E × W → Option (EmbeddingsError E) × W
  after_embedding_row (id, rest) (some err, w) =
      (some (EmbeddingsError.batch_upsert_failed id err), w)
  after_embedding_row (id, rest) (none, w) = rest w

  -- The loop of the fallback, with the commit behind it.
  unfoldable embedding_loop : X → List (VectorItem V) → W → Option (EmbeddingsError E) × W
  embedding_loop tx [] w = named_error EmbeddingsError.commit_failed (s.pool.commit tx w)
  embedding_loop tx (item ∷ items) w =
      after_embedding_row (item.id, embedding_loop tx items)
        (s.pool.tx_exec tx upsert_embedding_sql (embedding_arguments item) w)

  unfoldable fall_back_embeddings :
      List (VectorItem V) → (E ⊎ X) × W → Option (EmbeddingsError E) × W
  fall_back_embeddings items (inl err, w) = (some (EmbeddingsError.begin_failed err), w)
  fall_back_embeddings items (inr tx, w) = roll_back_embeddings tx (embedding_loop tx items w)

  -- What follows the copy.
  unfoldable after_embeddings_copy :
      X → List (VectorItem V) → Option E × W → Option (EmbeddingsError E) × W
  after_embeddings_copy tx items (none, w) =
      named_error EmbeddingsError.commit_failed (s.pool.commit tx w)
  after_embeddings_copy tx items (some err, w) =
      fall_back_embeddings items (s.pool.begin (s.pool.rollback tx w))

  unfoldable copy_embeddings : List (VectorItem V) → (E ⊎ X) × W → Option (EmbeddingsError E) × W
  copy_embeddings items (inl err, w) = (some (EmbeddingsError.begin_failed err), w)
  copy_embeddings items (inr tx, w) = roll_back_embeddings tx (
      after_embeddings_copy tx items (
        s.pool.copy_from tx (codes "public" ∷ codes "embeddings" ∷ [])
          (codes "chunk_id" ∷ codes "embeddings" ∷ codes "model" ∷ []) (embedding_rows items) w))

  -- `UpsertBatch`.
  unfoldable upsert_embeddings : List (VectorItem V) → W → Option (EmbeddingsError E) × W
  upsert_embeddings items w = if length items == 0 then (none, w) else elim (find_unpinned items) [
    | some n ↦ (some (EmbeddingsError.embedding_dimension n), w)
    | none ↦ copy_embeddings items (s.pool.begin w)
  ]

  -- `DeleteByID`.
  unfoldable delete_embedding : Bytes → W → Option (EmbeddingsError E) × W
  delete_embedding id w = named_error EmbeddingsError.statement_failed (
      s.pool.exec (codes "DELETE FROM public.embeddings WHERE chunk_id = $1")
        (Argument.text_argument id ∷ []) w)

  -- `DeleteByFileID`.
  unfoldable delete_embeddings_of_file : Bytes → W → Option (EmbeddingsError E) × W
  delete_embeddings_of_file file_id w = named_error EmbeddingsError.statement_failed (
      s.pool.exec
        (codes
          "DELETE FROM public.embeddings\n\t\t  WHERE chunk_id IN (SELECT chunk_id FROM public.file_chunks WHERE file_id = $1)")
        (Argument.text_argument file_id ∷ []) w)
