-- ===== src/PgFileStore.antt =====
-- pg_file_store.go: the records of files, documents and chunks on PostgreSQL. The database is a
-- parameter, which the store gives texts and arguments.
pub mod Texts
pub mod Files
pub mod Chunks
pub mod Atomic
pub mod Deletion
use fileprocessor.Base.{
  ℕ, ◌⊎◌, inl, inr, Bool, true, false, Option, none, some, List, [], ◌∷◌, ◌==◌, if◌then◌else◌,
  Bytes, bytes_eq, length, try_then,
}
use fileprocessor.Processor.{JsonValue, Metadata}
use fileprocessor.PgVectorStore.{Rows}
use fileprocessor.Searcher.{Chunk}

pub record PostgresFileStoreOwner : Type 0 where
  pub user_id : Bytes
  pub tenant_id : Bytes
  pub client_id : Bytes

-- An argument of a statement; `T` is the type of times, and a nullable text is `none` for NULL.
pub data FileArgument (T : Type 0) : Type 0 where
  text_value : Bytes → FileArgument T
  number_value : ℕ → FileArgument T
  nullable_value : Option Bytes → FileArgument T
  time_value : T → FileArgument T

-- A statement with its arguments.
abbrev pub Statement : Type 0 → Type 0
Statement T = Bytes × List (FileArgument T)

-- The pool of the package `pgx`, with the clock, the package `uuid` and `json.Marshal` of a map. A
-- statement gives the number of rows that it changed. A query of one row gives `none` where there is
-- no row, and its columns as texts.
pub record FilePool (W E X T : Type 0) : Type 0 where
  pub exec : Statement T → W → (E ⊎ ℕ) × W
  pub begin : W → (E ⊎ X) × W
  pub tx_exec : X → Statement T → W → Option E × W
  pub tx_query_text : X → Statement T → W → E ⊎ Option Bytes
  pub commit : X → W → Option E × W
  pub rollback : X → W → W
  pub close : W → W
  pub query_pair : Statement T → W → E ⊎ Option (Bytes × Bytes)
  pub query_four : Statement T → W → E ⊎ Option (Bytes × (Bytes × (Bytes × Bytes)))
  pub query_five : Statement T → W → E ⊎ Option (Bytes × (Bytes × (Bytes × (Bytes × Bytes))))
  pub query_chunks : Bytes → List Bytes → W → E ⊎ Rows E Chunk
  pub new_uuid : W → Bytes × W
  pub now : W → T × W
  pub encode_map : List (Bytes × JsonValue) → Bytes
  pub decode_map : Bytes → Option (List (Bytes × JsonValue))

-- `is_open` is false once the pool is nil.
pub record PostgresFileStore (W E X T : Type 0) : Type 0 where
  pub pool : FilePool W E X T
  pub is_open : Bool
  pub owner : PostgresFileStoreOwner

pub data FileStoreError (E : Type 0) : Type 0 where
  user_id_required : FileStoreError E
  open_failed : E → FileStoreError E
  statement_failed : E → FileStoreError E
  not_found : Bytes → FileStoreError E
  begin_failed : E → FileStoreError E
  lookup_failed : E → FileStoreError E
  read_rows_failed : E → FileStoreError E
  commit_failed : E → FileStoreError E

-- `m[key] = value`.
unfoldable pub set_key : Bytes → JsonValue → List (Bytes × JsonValue) → List (Bytes × JsonValue)
set_key key value [] = (key, value) ∷ []
set_key key value ((k, v) ∷ m) =
    let rest = set_key key value m in if bytes_eq k key then (key, value) ∷ m else (k, v) ∷ rest

-- The text of a map that is bound, or NULL for an empty one.
unfoldable pub encode_or_null :
    (List (Bytes × JsonValue) → Bytes) → List (Bytes × JsonValue) → Option Bytes
encode_or_null encode [] = none
encode_or_null encode (entry ∷ m) = some (encode (entry ∷ m))

unfoldable pub entries_of : Metadata → List (Bytes × JsonValue)
entries_of none = []
entries_of (some m) = m

-- `jsonbArg(v)`, and `jsonbArg(v, key, text)`.
unfoldable pub jsonb_arg : (List (Bytes × JsonValue) → Bytes) → Metadata → Option Bytes
unfolding encode_or_null entries_of
jsonb_arg encode v = encode_or_null encode (entries_of v)

unfoldable pub jsonb_arg_with :
    (List (Bytes × JsonValue) → Bytes) → Metadata → Bytes → Bytes → Option Bytes
unfolding encode_or_null entries_of set_key
jsonb_arg_with encode v key text = encode_or_null encode (
    if length text == 0
    then entries_of v
    else set_key key (JsonValue.json_text text) (entries_of v))

unfoldable check_owner :
    {W E X T : Type 0}
    → FilePool W E X T
    → PostgresFileStoreOwner
    → FileStoreError E ⊎ PostgresFileStore W E X T
check_owner pool owner =
    if length owner.user_id == 0
    then inl user_id_required
    else inr (record { pool = pool; is_open = true; owner = owner })

module _ {W E : Type 0} where
  -- The result of a statement without a value.
  unfoldable pub done_or :
      Option E × W → (W → Option (FileStoreError E) × W) → Option (FileStoreError E) × W
  done_or (none, w) rest = rest w
  done_or (some err, w) rest = (some (statement_failed err), w)

  unfoldable pub committed_or : Option E × W → Option (FileStoreError E) × W
  committed_or (none, w) = (none, w)
  committed_or (some err, w) = (some (commit_failed err), w)

  -- A value if there was no error.
  unfoldable pub value_or :
      {A : Type 0} → A → Option (FileStoreError E) × W → (FileStoreError E ⊎ A) × W
  value_or a (none, w) = (inr a, w)
  value_or a (some err, w) = (inl err, w)

module _ {W E X T : Type 0} where
  -- `NewPostgresFileStoreWithPool`.
  unfoldable new_postgres_file_store_with_pool :
      FilePool W E X T → PostgresFileStoreOwner → FileStoreError E ⊎ PostgresFileStore W E X T
  new_postgres_file_store_with_pool pool owner = check_owner pool owner

  -- `NewPostgresFileStore`, by `pgxpool.New`.
  unfoldable new_postgres_file_store :
      (Bytes → W → (E ⊎ FilePool W E X T) × W)
      → Bytes
      → PostgresFileStoreOwner
      → W
      → (FileStoreError E ⊎ PostgresFileStore W E X T) × W
  new_postgres_file_store new_pool dsn owner w =
      if length owner.user_id == 0
      then (inl user_id_required, w)
      else try_then open_failed (new_pool dsn w) (λ pool w'. (check_owner pool owner, w'))

  -- `Close`: the store without its pool.
  unfoldable close_file_store : PostgresFileStore W E X T → W → PostgresFileStore W E X T × W
  close_file_store s w =
      if s.is_open then (record s { is_open = false }, s.pool.close w) else (s, w)

  -- The statements of a transaction, one after the other, and the commit. An error ends them.
  unfoldable pub run_statements :
      FilePool W E X T → X → List (Statement T) → W → Option (FileStoreError E) × W
  run_statements pool tx [] w = committed_or (pool.commit tx w)
  run_statements pool tx (st ∷ sts) w = done_or (pool.tx_exec tx st w) (run_statements pool tx sts)

  -- The deferred rollback, which does nothing after a commit.
  unfoldable pub end_transaction :
      FilePool W E X T → X → Option (FileStoreError E) × W → Option (FileStoreError E) × W
  end_transaction pool tx (result, w) = (result, pool.rollback tx w)

  unfoldable pub in_transaction :
      FilePool W E X T → List (Statement T) → (E ⊎ X) × W → Option (FileStoreError E) × W
  in_transaction pool sts (inl err, w) = (some (begin_failed err), w)
  in_transaction pool sts (inr tx, w) = end_transaction pool tx (run_statements pool tx sts w)

  -- The id of a record, or a new one.
  unfoldable pub id_or_new : FilePool W E X T → Bytes → W → Bytes × W
  id_or_new pool id w = if length id == 0 then pool.new_uuid w else (id, w)
