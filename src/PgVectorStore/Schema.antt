-- ===== src/PgVectorStore/Schema.antt =====
-- How a store of pgvector_store.go is opened, tuned and closed.
use fileprocessor.Base.{
  ℕ, ◌⊎◌, inl, inr, Bool, true, false, Option, none, some, [], ◌∷◌, ◌++◌, ◌==◌, if◌then◌else◌,
  Bytes, codes, ℤ, is_nonpos, pos, negsuc, length, fail_as, and_then,
}
use fileprocessor.PgVectorStore.{
  PgHnswConfig, Pool, PgVectorStore, Argument, StoreError, normalize, default_schema,
  metric_ops_class, table_name, index_name, decimal_int, checked,
}
use fileprocessor.PgVectorStore.Dimension.{DimensionError, parse_pg_vector_dimension}

-- `dim != s.dim`.
unfoldable pub int_eq : ℤ → ℤ → Bool
int_eq (pos m) (pos n) = m == n
int_eq (negsuc m) (negsuc n) = m == n
int_eq (pos m) (negsuc n) = false
int_eq (negsuc m) (pos n) = false

-- What the column's type says of its dimension.
unfoldable check_dimension : {E : Type 0} → ℤ → Bytes → DimensionError ⊎ ℤ → Option (StoreError E)
check_dimension expected data_type (inl err) = some (StoreError.parse_type_failed data_type)
check_dimension expected data_type (inr dim) =
    if int_eq dim expected then none else some (StoreError.dimension_mismatch dim expected)

unfoldable check_column : {E : Type 0} → ℤ → E ⊎ Option Bytes → Option (StoreError E)
unfolding parse_pg_vector_dimension
check_column expected (inl err) = some (StoreError.read_column_failed err)
check_column expected (inr none) = some StoreError.column_not_found
check_column expected (inr (some data_type)) =
    check_dimension expected data_type (parse_pg_vector_dimension data_type)

-- What follows a step of `init` that had no error.
unfoldable next_step :
    {W E : Type 0}
    → Option (StoreError E) × W
    → (W → Option (StoreError E) × W)
    → Option (StoreError E) × W
next_step (none, w) rest = rest w
next_step (some err, w) rest = (some err, w)

pub record PgIndexStats : Type 0 where
  pub total_vectors : ℕ
  pub index_size : Bytes
  pub config : PgHnswConfig

unfoldable or_no_size : {E : Type 0} → E ⊎ Option Bytes → Bytes
or_no_size (inr (some text)) = text
or_no_size (inr none) = []
or_no_size (inl err) = []

module _ {W E V X F : Type 0} (s : PgVectorStore W E V X F) where
  -- `EnsureSchema`.
  unfoldable ensure_schema : W → Option (StoreError E) × W
  ensure_schema w =
      checked StoreError.create_schema_failed
        (s.pool.exec (codes "CREATE SCHEMA IF NOT EXISTS " ++ s.pool.sanitize (s.schema ∷ [])) [] w)

  unfoldable create_extension : E ⊎ Bool → W → Option (StoreError E) × W
  create_extension (inl err) w = (some (StoreError.probe_extension_failed err), w)
  create_extension (inr true) w = (none, w)
  create_extension (inr false) w =
      checked StoreError.extension_unavailable
        (s.pool.exec (codes "CREATE EXTENSION IF NOT EXISTS vector") [] w)

  -- `ensureExtension`.
  unfoldable ensure_extension : W → Option (StoreError E) × W
  ensure_extension w =
      create_extension
        (s.pool.query_bool
          (codes "SELECT EXISTS (SELECT 1 FROM pg_extension WHERE extname = 'vector')") w)
        w

  -- `verifyEmbeddingDimension`.
  unfoldable verify_embedding_dimension : W → Option (StoreError E)
  verify_embedding_dimension w = check_column s.dim (
      s.pool.query_text
        (codes
          "\n\t\tSELECT format_type(atttypid, atttypmod)\n\t\tFROM pg_attribute\n\t\tWHERE attrelid = $1::regclass\n\t\t  AND attname = 'embedding'\n\t\tLIMIT 1\n\t")
        (Argument.text_argument (table_name s) ∷ []) w)

  unfoldable create_table_sql : Bytes
  create_table_sql =
      codes "\n\t\tCREATE TABLE IF NOT EXISTS "
      ++ (table_name s
          ++ (codes " (\n\t\t\tid TEXT PRIMARY KEY,\n\t\t\tfile_id TEXT,\n\t\t\tembedding vector("
              ++ (decimal_int s.dim ++ codes ")\n\t\t)\n\t")))

  -- `ensureTable`.
  unfoldable ensure_table : W → Option (StoreError E) × W
  ensure_table w =
      next_step (checked StoreError.create_table_failed (s.pool.exec create_table_sql [] w))
        (λ w'. (verify_embedding_dimension w', w'))

  -- `ensureIndex`.
  unfoldable ensure_index : W → Option (StoreError E) × W
  ensure_index w = checked StoreError.create_index_failed (
      s.pool.exec
        (codes "\n\t\tCREATE INDEX IF NOT EXISTS "
          ++ (index_name s
              ++ (codes "\n\t\tON "
                  ++ (table_name s
                      ++ (codes " USING hnsw (embedding "
                          ++ (metric_ops_class s.config.metric ++ codes ")\n\t"))))))
        [] w)

  unfoldable ef_search_sql : ℤ → Bytes
  ef_search_sql ef_search = codes "SET hnsw.ef_search = " ++ decimal_int ef_search

  -- The last step of `init`, whose error is only logged.
  unfoldable install_ef_search : W → Option (StoreError E) × W
  install_ef_search w = (
    none,
    (if is_nonpos s.config.ef_search
        then w
        else (s.pool.exec (ef_search_sql s.config.ef_search) [] w).1),
  )

  -- `init`.
  unfoldable init : W → Option (StoreError E) × W
  init w = next_step (ensure_schema w) (λ w1.
      next_step (ensure_extension w1)
        (λ w2. next_step (ensure_table w2) (λ w3. next_step (ensure_index w3) install_ef_search)))

  -- `SetEfSearch`.
  unfoldable set_ef_search : ℤ → W → Option (StoreError E) × W
  set_ef_search ef_search w =
      if s.is_open
      then checked StoreError.statement_failed (s.pool.exec (ef_search_sql ef_search) [] w)
      else (some StoreError.store_closed, w)

  -- `ResetEfSearch`.
  unfoldable reset_ef_search : W → Option (StoreError E) × W
  reset_ef_search w =
      if s.is_open
      then checked StoreError.statement_failed (s.pool.exec (codes "RESET hnsw.ef_search") [] w)
      else (some StoreError.store_closed, w)

  -- `GetIndexStats`.
  unfoldable get_index_stats : W → StoreError E ⊎ PgIndexStats
  get_index_stats w =
      and_then
        (fail_as StoreError.statement_failed
          (s.pool.query_count (codes "SELECT COUNT(*) FROM " ++ table_name s) w))
        (λ count. inr (record {
          total_vectors = count;
          index_size = or_no_size (
              s.pool.query_text (codes "SELECT pg_size_pretty(pg_relation_size($1))")
                (Argument.text_argument (index_name s) ∷ []) w);
          config = s.config;
        }))

  -- `Close`: the store without its pool.
  unfoldable pub close : W → PgVectorStore W E V X F × W
  close w = if s.is_open then (record s { is_open = false }, s.pool.close w) else (s, w)

module _ {W E V X F : Type 0} where
  -- A store, by what its initialisation gives; `close_pool` is what is done where that failed.
  unfoldable pub opened :
      PgVectorStore W E V X F
      → (W → W)
      → Option (StoreError E) × W
      → (StoreError E ⊎ PgVectorStore W E V X F) × W
  opened s close_pool (none, w) = (inr s, w)
  opened s close_pool (some err, w) = (inl err, close_pool w)

  unfoldable wired : Pool W E V X F → ℤ → Bytes → Option PgHnswConfig → PgVectorStore W E V X F
  wired pool dim schema cfg = record {
    pool = pool;
    is_open = true;
    dim = dim;
    config = normalize cfg;
    schema = schema;
  }

  -- `NewPgVectorStoreWithPool`.
  unfoldable new_pg_vector_store_with_pool :
      Pool W E V X F
      → ℤ
      → Bytes
      → Option PgHnswConfig
      → W
      → (StoreError E ⊎ PgVectorStore W E V X F) × W
  new_pg_vector_store_with_pool pool dim schema cfg w =
      let s = wired pool dim (if length schema == 0 then default_schema else schema) cfg in
      opened s (λ w'. w') (init s w)

  unfoldable with_new_pool :
      ℤ
      → Option PgHnswConfig
      → (E ⊎ Pool W E V X F) × W
      → (StoreError E ⊎ PgVectorStore W E V X F) × W
  with_new_pool dim cfg (inl err, w) = (inl (StoreError.open_failed err), w)
  with_new_pool dim cfg (inr pool, w) =
      let s = wired pool dim default_schema cfg in opened s pool.close (init s w)

  -- `NewPgVectorStoreWithConfig`, by `pgxpool.New`; `NewPgVectorStore` calls it without a
  -- configuration.
  unfoldable new_pg_vector_store_with_config :
      (Bytes → W → (E ⊎ Pool W E V X F) × W)
      → Bytes
      → ℤ
      → Option PgHnswConfig
      → W
      → (StoreError E ⊎ PgVectorStore W E V X F) × W
  new_pg_vector_store_with_config new_pool dsn dim cfg w = with_new_pool dim cfg (new_pool dsn w)
