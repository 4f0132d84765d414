-- ===== src/PgVectorStore.antt =====
-- pgvector_store.go: the store of vectors on PostgreSQL, its configuration and its texts in SQL. The
-- database is a parameter, which the store gives texts and arguments; logging is left out.
pub mod Schema
pub mod Rows
pub mod Queries
pub mod Dimension
pub mod Roundtrip
pub mod Batches
use fileprocessor.Base.{
  ℕ, ◌+◌, ◌⊎◌, Bool, true, false, not, Option, none, some, List, [], ◌∷◌, ◌++◌, ◌==◌, if◌then◌else◌,
  Bytes, codes, ℤ, is_nonpos, pos, negsuc, length,
}
use fileprocessor.Text.{decimal}

pub data DistanceMetric : Type 0 where
  cosine : DistanceMetric
  euclidean : DistanceMetric
  inner_product : DistanceMetric
  other_metric : Bytes → DistanceMetric

-- An empty text stands for no metric.
abbrev pub no_metric : DistanceMetric
no_metric = other_metric []

unfoldable pub is_unset : DistanceMetric → Bool
is_unset cosine = false
is_unset euclidean = false
is_unset inner_product = false
is_unset (other_metric name) = length name == 0

pub record PgHnswConfig : Type 0 where
  pub metric : DistanceMetric
  pub m : ℤ
  pub ef_construction : ℤ
  pub ef_search : ℤ

unfoldable pub default_pg_hnsw_config : PgHnswConfig
default_pg_hnsw_config = record {
  metric = cosine;
  m = pos 16;
  ef_construction = pos 64;
  ef_search = pos 40;
}

unfoldable pub or_default_value : ℤ → ℤ → ℤ
or_default_value value default = if is_nonpos value then default else value

-- `normalize`; a nil pointer is `none`.
unfoldable pub normalize : Option PgHnswConfig → PgHnswConfig
unfolding default_pg_hnsw_config or_default_value is_unset
normalize none = default_pg_hnsw_config
normalize (some c) = record {
  metric = if is_unset c.metric then cosine else c.metric;
  m = or_default_value c.m (pos 16);
  ef_construction = or_default_value c.ef_construction (pos 64);
  ef_search = or_default_value c.ef_search (pos 40);
}

abbrev pub default_schema : Bytes
default_schema = codes "fileprocessor"

-- `metricOpsClass`.
unfoldable pub metric_ops_class : DistanceMetric → Bytes
metric_ops_class euclidean = codes "vector_l2_ops"
metric_ops_class inner_product = codes "vector_ip_ops"
metric_ops_class cosine = codes "vector_cosine_ops"
metric_ops_class (other_metric name) = codes "vector_cosine_ops"

-- `metricDistanceOp`.
unfoldable pub metric_distance_op : DistanceMetric → Bytes
metric_distance_op euclidean = codes "<->"
metric_distance_op inner_product = codes "<#>"
metric_distance_op cosine = codes "<=>"
metric_distance_op (other_metric name) = codes "<=>"

-- An argument of a statement, and a row of the table.
pub data Argument (V : Type 0) : Type 0 where
  text_argument : Bytes → Argument V
  vector_argument : List V → Argument V
  int_argument : ℤ → Argument V
  texts_argument : List Bytes → Argument V

pub record VectorItem (V : Type 0) : Type 0 where
  pub id : Bytes
  pub file_id : Bytes
  pub embedding : List V

-- What a query gives: the rows that could be read, and the error that ended them, if any.
abbrev pub Rows : Type 0 → Type 0 → Type 0
Rows E R = List R × Option E

-- The pool of connections of the package `pgx`, over a state. A transaction has a handle `X`. The
-- queries are told apart by what a row of their result is. `sanitize` quotes an identifier.
pub record Pool (W E V X F : Type 0) : Type 0 where
  pub exec : Bytes → List (Argument V) → W → Option E × W
  pub begin : W → (E ⊎ X) × W
  pub copy_from : X → List Bytes → List Bytes → List (VectorItem V) → W → Option E × W
  pub tx_exec : X → Bytes → List (Argument V) → W → Option E × W
  pub commit : X → W → Option E × W
  pub rollback : X → W → W
  pub query_bool : Bytes → W → E ⊎ Bool
  pub query_text : Bytes → List (Argument V) → W → E ⊎ Option Bytes
  pub query_count : Bytes → W → E ⊎ ℕ
  pub query_matches : Bytes → List (Argument V) → W → E ⊎ Rows E (Bytes × (Bytes × F))
  pub query_batch : Bytes → List (Argument V) → W → E ⊎ Rows E (Bytes × (Bytes × (Bytes × F)))
  pub close : W → W
  pub sanitize : List Bytes → Bytes

-- `pool` is none once the store is closed.
pub record PgVectorStore (W E V X F : Type 0) : Type 0 where
  pub pool : Pool W E V X F
  pub is_open : Bool
  pub dim : ℤ
  pub config : PgHnswConfig
  pub schema : Bytes

pub data StoreError (E : Type 0) : Type 0 where
  open_failed : E → StoreError E
  create_schema_failed : E → StoreError E
  probe_extension_failed : E → StoreError E
  extension_unavailable : E → StoreError E
  create_table_failed : E → StoreError E
  column_not_found : StoreError E
  read_column_failed : E → StoreError E
  parse_type_failed : Bytes → StoreError E
  dimension_mismatch : ℤ → ℤ → StoreError E
  create_index_failed : E → StoreError E
  store_closed : StoreError E
  embedding_dimension : ℕ → ℤ → StoreError E
  begin_failed : E → StoreError E
  commit_failed : E → StoreError E
  batch_upsert_failed : Bytes → E → StoreError E
  statement_failed : E → StoreError E
  read_rows_failed : E → StoreError E

-- `len(embedding) != s.dim`.
unfoldable pub differs : ℕ → ℤ → Bool
differs n (pos m) = not (n == m)
differs n (negsuc m) = true

-- `fmt.Sprintf("%d", z)`.
unfoldable pub decimal_int : ℤ → Bytes
decimal_int (pos n) = decimal n
decimal_int (negsuc n) = b'-' ∷ decimal (n + 1)

module _ {W E V X F : Type 0} (s : PgVectorStore W E V X F) where
  unfoldable pub table_name : Bytes
  table_name = s.pool.sanitize (s.schema ∷ codes "vectors" ∷ [])

  unfoldable pub index_name : Bytes
  index_name = s.pool.sanitize ((s.schema ++ codes "_vec_idx") ∷ [])

  -- The statement that inserts a row or updates the one with its id.
  unfoldable pub upsert_sql : Bytes
  upsert_sql =
      codes "\n\t\tINSERT INTO "
      ++ (table_name
          ++ codes
              " (id, file_id, embedding)\n\t\tVALUES ($1, $2, $3)\n\t\tON CONFLICT (id) DO UPDATE\n\t\tSET file_id = EXCLUDED.file_id,\n\t\t    embedding = EXCLUDED.embedding\n\t")

unfoldable pub row_arguments : {V : Type 0} → VectorItem V → List (Argument V)
row_arguments item =
    text_argument item.id ∷ text_argument item.file_id ∷ vector_argument item.embedding ∷ []

-- The result of a statement, with its error under a name.
unfoldable pub checked :
    {W E : Type 0} (wrap : E → StoreError E) → Option E × W → Option (StoreError E) × W
checked wrap (none, w) = (none, w)
checked wrap (some err, w) = (some (wrap err), w)
