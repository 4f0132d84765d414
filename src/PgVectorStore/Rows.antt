-- ===== src/PgVectorStore/Rows.antt =====
-- The rows of the store: `Upsert`, `UpsertBatch` and the deletions of pgvector_store.go.
use fileprocessor.Base.{
  ◌⊎◌, inl, inr, Option, none, some, List, [], ◌∷◌, ◌++◌, ◌==◌, if◌then◌else◌, Bytes, codes, ℤ,
  length,
}
use fileprocessor.PgVectorStore.{
  Argument, VectorItem, PgVectorStore, StoreError, differs, table_name, upsert_sql, row_arguments,
  checked,
}

-- The first item whose embedding is not of the dimension.
unfoldable pub find_misfit : {V : Type 0} → ℤ → List (VectorItem V) → Option (VectorItem V)
find_misfit dim [] = none
find_misfit dim (item ∷ items) =
    let rest = find_misfit dim items in
    if differs (length item.embedding) dim then some item else rest

abbrev pub columns : List Bytes
columns = codes "id" ∷ codes "file_id" ∷ codes "embedding" ∷ []

module _ {W E V X F : Type 0} (s : PgVectorStore W E V X F) where
  -- `Upsert`.
  unfoldable pub upsert : VectorItem V → W → Option (StoreError E) × W
  upsert item w =
      if differs (length item.embedding) s.dim
      then (some (StoreError.embedding_dimension (length item.embedding) s.dim), w)
      else checked StoreError.statement_failed (s.pool.exec (upsert_sql s) (row_arguments item) w)

  -- A transaction is rolled back when the function that began it returns, after which a rollback
  -- does nothing if it was committed.
  unfoldable pub roll_back : X → Option (StoreError E) × W → Option (StoreError E) × W
  roll_back tx (result, w) = (result, s.pool.rollback tx w)

  -- The loop of the fallback, with the commit behind it. An error ends it.
  unfoldable pub after_row :
      (Bytes × (W → Option (StoreError E) × W)) → Option E × W → Option (StoreError E) × W
  after_row (id, rest) (some err, w) = (some (StoreError.batch_upsert_failed id err), w)
  after_row (id, rest) (none, w) = rest w

  unfoldable pub upsert_loop : X → List (VectorItem V) → W → Option (StoreError E) × W
  upsert_loop tx [] w = checked StoreError.commit_failed (s.pool.commit tx w)
  upsert_loop tx (item ∷ items) w =
      after_row (item.id, upsert_loop tx items)
        (s.pool.tx_exec tx (upsert_sql s) (row_arguments item) w)

  -- The fallback, once its transaction is there or not.
  unfoldable pub fall_back : List (VectorItem V) → (E ⊎ X) × W → Option (StoreError E) × W
  fall_back items (inl err, w) = (some (StoreError.begin_failed err), w)
  fall_back items (inr tx, w) = roll_back tx (upsert_loop tx items w)

  -- What follows the bulk insert.
  unfoldable pub after_bulk : X → List (VectorItem V) → Option E × W → Option (StoreError E) × W
  after_bulk tx items (none, w) = checked StoreError.commit_failed (s.pool.commit tx w)
  after_bulk tx items (some err, w) = fall_back items (s.pool.begin (s.pool.rollback tx w))

  -- The batch, once its transaction is there or not.
  unfoldable pub copy_batch : List (VectorItem V) → (E ⊎ X) × W → Option (StoreError E) × W
  copy_batch items (inl err, w) = (some (StoreError.begin_failed err), w)
  copy_batch items (inr tx, w) =
      roll_back tx (
        after_bulk tx items (s.pool.copy_from tx (s.schema ∷ codes "vectors" ∷ []) columns items w))

  -- `UpsertBatch`.
  unfoldable pub upsert_batch : List (VectorItem V) → W → Option (StoreError E) × W
  upsert_batch items w = if length items == 0 then (none, w) else elim (find_misfit s.dim items) [
    | some item ↦ (some (StoreError.embedding_dimension (length item.embedding) s.dim), w)
    | none ↦ copy_batch items (s.pool.begin w)
  ]

  -- `DeleteByID`.
  unfoldable delete_by_id : Bytes → W → Option (StoreError E) × W
  delete_by_id id w = checked StoreError.statement_failed (
      s.pool.exec (codes "DELETE FROM " ++ (table_name s ++ codes " WHERE id = $1"))
        (Argument.text_argument id ∷ []) w)

  -- `DeleteByFileID`.
  unfoldable pub delete_by_file_id : Bytes → W → Option (StoreError E) × W
  delete_by_file_id file_id w = checked StoreError.statement_failed (
      s.pool.exec (codes "DELETE FROM " ++ (table_name s ++ codes " WHERE file_id = $1"))
        (Argument.text_argument file_id ∷ []) w)
