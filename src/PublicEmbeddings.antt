-- ===== src/PublicEmbeddings.antt =====
-- public_embeddings_store.go: the store of vectors in the host's table `public.embeddings`; the index
-- and the tuning. The database is a parameter; logging is left out.
pub mod Opening
pub mod Writes
pub mod Search
pub mod Tenant
use fileprocessor.Base.{
  ℕ, ◌⊎◌, inl, inr, Bool, false, Option, none, some, List, [], ◌++◌, ◌==◌, if◌then◌else◌, Bytes,
  codes, ℤ, is_nonpos, pos, length,
}
use fileprocessor.PgVectorStore.{
  PgHnswConfig, Argument, VectorItem, Rows, StoreError, metric_ops_class, decimal_int,
}
use fileprocessor.PgVectorStore.Schema.{int_eq}
use fileprocessor.PgVectorStore.Dimension.{DimensionError, parse_pg_vector_dimension}

abbrev pub default_embedding_dim : ℕ
default_embedding_dim = 1024

-- The pool of the package `pgx` over a state, with a handle `X` of a transaction, and `QuoteLiteral`
-- of the package `pq`. `is_permission_denied` tells the code 42501 of an error.
pub record EmbeddingsPool (W E V X F : Type 0) : Type 0 where
  pub exec : Bytes → List (Argument V) → W → Option E × W
  pub begin : W → (E ⊎ X) × W
  pub copy_from : X → List Bytes → List Bytes → List (Bytes × (List V × Bytes)) → W → Option E × W
  pub tx_exec : X → Bytes → List (Argument V) → W → Option E × W
  pub commit : X → W → Option E × W
  pub rollback : X → W → W
  pub query_text : Bytes → W → E ⊎ Bytes
  pub query_matches : Bytes → List (Argument V) → W → E ⊎ Rows E (Bytes × (Bytes × F))
  pub tx_query_matches : X → Bytes → List (Argument V) → W → E ⊎ Rows E (Bytes × (Bytes × F))
  pub query_batch : Bytes → List (Argument V) → W → E ⊎ Rows E (Bytes × (Bytes × (Bytes × F)))
  pub close : W → W
  pub quote_literal : Bytes → Bytes
  pub is_permission_denied : E → Bool

-- `is_open` is false once the pool is nil; the empty model is none.
pub record PublicEmbeddingsStore (W E V X F : Type 0) : Type 0 where
  pub pool : EmbeddingsPool W E V X F
  pub is_open : Bool
  pub config : PgHnswConfig
  pub model : Bytes

pub data EmbeddingsError (E : Type 0) : Type 0 where
  pinned_dimension : ℤ → EmbeddingsError E
  open_failed : E → EmbeddingsError E
  read_column_failed : E → EmbeddingsError E
  parse_type_failed : Bytes → EmbeddingsError E
  found_dimension : ℤ → EmbeddingsError E
  create_index_failed : E → EmbeddingsError E
  store_closed : EmbeddingsError E
  embedding_dimension : ℕ → EmbeddingsError E
  begin_failed : E → EmbeddingsError E
  set_tenant_failed : E → EmbeddingsError E
  commit_failed : E → EmbeddingsError E
  batch_upsert_failed : Bytes → E → EmbeddingsError E
  statement_failed : E → EmbeddingsError E
  read_row_failed : E → EmbeddingsError E
  collect_failed : StoreError E → EmbeddingsError E

abbrev default_model_tag : Bytes
default_model_tag = codes "fileprocessor"

abbrev hnsw_index_name : Bytes
hnsw_index_name = codes "public_embeddings_hnsw_idx"

abbrev column_sql : Bytes
column_sql =
    codes
      "\n\t\tSELECT format_type(atttypid, atttypmod)\n\t\tFROM pg_attribute\n\t\tWHERE attrelid = 'public.embeddings'::regclass\n\t\t  AND attname = 'embeddings'\n\t\tLIMIT 1\n\t"

-- The result of a call, with its error under a name.
unfoldable pub named_error :
    {W E : Type 0} (wrap : E → EmbeddingsError E) → Option E × W → Option (EmbeddingsError E) × W
named_error wrap (none, w) = (none, w)
named_error wrap (some err, w) = (some (wrap err), w)

-- What the type of the column says of the dimension.
unfoldable pub check_pinned : {E : Type 0} → Bytes → DimensionError ⊎ ℤ → Option (EmbeddingsError E)
check_pinned data_type (inl err) = some (parse_type_failed data_type)
check_pinned data_type (inr dim) =
    if int_eq dim (pos default_embedding_dim) then none else some (found_dimension dim)

unfoldable pub check_embeddings_column : {E : Type 0} → E ⊎ Bytes → Option (EmbeddingsError E)
check_embeddings_column (inl err) = some (read_column_failed err)
check_embeddings_column (inr data_type) =
    check_pinned data_type (parse_pg_vector_dimension data_type)

module _ {W E V X F : Type 0} (s : PublicEmbeddingsStore W E V X F) where
  -- `modelTag`.
  unfoldable pub model_tag : Bytes
  model_tag = if length s.model == 0 then default_model_tag else s.model

  -- `SetModel`.
  unfoldable set_model : Bytes → PublicEmbeddingsStore W E V X F
  set_model model = record s { model = model }

  -- `Close`: the store without its pool.
  unfoldable close_embeddings : W → PublicEmbeddingsStore W E V X F × W
  close_embeddings w = if s.is_open then (record s { is_open = false }, s.pool.close w) else (s, w)

  -- A statement on the pool, unless the store is closed.
  unfoldable on_open : Bytes → W → Option (EmbeddingsError E) × W
  on_open sql w =
      if s.is_open
      then named_error statement_failed (s.pool.exec sql [] w)
      else (some store_closed, w)

  -- `SetEfSearch`.
  unfoldable set_embeddings_ef_search : ℤ → W → Option (EmbeddingsError E) × W
  set_embeddings_ef_search ef_search w =
      on_open (codes "SET hnsw.ef_search = " ++ decimal_int ef_search) w

  -- `ResetEfSearch`.
  unfoldable reset_embeddings_ef_search : W → Option (EmbeddingsError E) × W
  reset_embeddings_ef_search w = on_open (codes "RESET hnsw.ef_search") w

  unfoldable pub create_embeddings_index_sql : Bytes
  create_embeddings_index_sql =
      codes "\n\t\tCREATE INDEX IF NOT EXISTS "
      ++ (hnsw_index_name
          ++ (codes "\n\t\tON public.embeddings USING hnsw (embeddings "
              ++ (metric_ops_class s.config.metric ++ codes ")\n\t")))

  unfoldable pub install_embeddings_ef_search : W → Option (EmbeddingsError E) × W
  install_embeddings_ef_search w = (
    none,
    (if is_nonpos s.config.ef_search
        then w
        else (s.pool.exec (codes "SET hnsw.ef_search = " ++ decimal_int s.config.ef_search) []
            w).1),
  )

  -- What follows the creation of the index: a refused permission is passed over.
  unfoldable pub after_index : Option E × W → Option (EmbeddingsError E) × W
  after_index (none, w) = install_embeddings_ef_search w
  after_index (some err, w) =
      if s.pool.is_permission_denied err
      then install_embeddings_ef_search w
      else (some (create_index_failed err), w)

  -- `verifyColumn`.
  unfoldable pub verify_column : W → Option (EmbeddingsError E)
  verify_column w = check_embeddings_column (s.pool.query_text column_sql w)

  unfoldable pub init_verified : Option (EmbeddingsError E) → W → Option (EmbeddingsError E) × W
  init_verified (some err) w = (some err, w)
  init_verified none w = after_index (s.pool.exec create_embeddings_index_sql [] w)

  -- `init`.
  unfoldable pub init_embeddings : W → Option (EmbeddingsError E) × W
  init_embeddings w = init_verified (verify_column w) w
