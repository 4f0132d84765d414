-- ===== src/Tests/Store.antt =====
-- A store over a database that is a table and what the open transaction sees of it.
use fileprocessor.Base.{
  ℕ, ◌≡◌, refl, sym, ap, ◌⊎◌, inr, Bool, true, false, ◌&&◌, not, Option, none, some, List, [], ◌∷◌,
  ◌++◌, arith, Bytes, codes, pos, length,
}
use fileprocessor.Text.{decimal}
use fileprocessor.PgVectorStore.{
  Argument, VectorItem, Pool, PgVectorStore, default_pg_hnsw_config, row_arguments,
}
use fileprocessor.PgVectorStore.Rows.{upsert_batch}
use fileprocessor.PgVectorStore.Batches.{
  has_id, put, put_all, AreFresh, IsPostgres, IsAtomic, upsert_batch-IsAtomic,
}
use fileprocessor.PgVectorStore.Dimension.{parse_pg_vector_dimension}
use fileprocessor.PgVectorStore.Roundtrip.{parse_pg_vector_dimension-decimal}

abbrev Items : Type 0
Items = List (VectorItem ℕ)

-- The rows of the table, and those that the transaction sees.
abbrev Tables : Type 0
Tables = Items × Items

are_fresh : Items → Items → Bool
are_fresh rows [] = true
are_fresh rows (item ∷ items) =
    let rest = are_fresh (rows ++ item ∷ []) items in not (has_id item.id rows) && rest

are_fresh-AreFresh : (rows items : Items) → are_fresh rows items ≡ true → AreFresh rows items
unfolding are_fresh
are_fresh-AreFresh rows [] h = tt
are_fresh-AreFresh rows (item ∷ items) h =
    (ground arith, are_fresh-AreFresh (rows ++ item ∷ []) items (ground arith))

abbrev copy_if : Bool → Items → Tables → Option Bytes × Tables
copy_if true items w = (none, (w.0, w.1 ++ items))
copy_if false items w = (some (codes "duplicate key"), w)

abbrev put_arguments : List (Argument ℕ) → Tables → Option Bytes × Tables
put_arguments
      (Argument.text_argument id
        ∷ Argument.text_argument file_id
        ∷ Argument.vector_argument embedding
        ∷ [])
      w =
    (none, (w.0, put (record { id = id; file_id = file_id; embedding = embedding }) w.1))
put_arguments arguments w = (some (codes "syntax error"), w)

abbrev pool : Pool Tables Bytes ℕ ℕ ℕ
pool = record {
  exec = λ sql arguments w. (none, w);
  begin = λ w. (inr 0, (w.0, w.0));
  copy_from = λ tx name columns items w. copy_if (are_fresh w.1 items) items w;
  tx_exec = λ tx sql arguments w. put_arguments arguments w;
  commit = λ tx w. (none, (w.1, w.1));
  rollback = λ tx w. (w.0, w.0);
  query_bool = λ sql w. inr true;
  query_text = λ sql arguments w. inr none;
  query_count = λ sql w. inr (length w.0);
  query_matches = λ sql arguments w. inr ([], none);
  query_batch = λ sql arguments w. inr ([], none);
  close = λ w. w;
  sanitize = λ names. codes "vectors";
}

abbrev store : PgVectorStore Tables Bytes ℕ ℕ ℕ
store = record {
  pool = pool;
  is_open = true;
  dim = pos 2;
  config = default_pg_hnsw_config;
  schema = codes "fileprocessor";
}

copy_if-copied :
    (fresh : Bool) (items : Items) (w w' : Tables)
    → are_fresh w.1 items ≡ fresh
    → copy_if fresh items w ≡ (none, w')
    → (w'.0 ≡ w.0) × ((w'.1 ≡ w.1 ++ items) × AreFresh w.1 items)
copy_if-copied true items w w' fresh e = (
  sym (ap (λ (r : Option Bytes × Tables). r.1.0) e),
  (sym (ap (λ (r : Option Bytes × Tables). r.1.1) e), are_fresh-AreFresh w.1 items fresh),
)
copy_if-copied false items w w' fresh e = cc (ap (λ (r : Option Bytes × Tables). r.0) e)

copy_if-failed :
    (fresh : Bool) (items : Items) (w w' : Tables) (err : Bytes)
    → copy_if fresh items w ≡ (some err, w')
    → w'.0 ≡ w.0
copy_if-failed true items w w' err e = sym (ap (λ (r : Option Bytes × Tables). r.1.0) e)
copy_if-failed false items w w' err e = sym (ap (λ (r : Option Bytes × Tables). r.1.0) e)

pool-IsPostgres : IsPostgres store (λ w. w.0) (λ tx w. w.1)
unfolding row_arguments
pool-IsPostgres = record {
  begun = λ w w' tx e. (
    sym (ap (λ (r : (Bytes ⊎ ℕ) × Tables). r.1.0) e),
    sym (ap (λ (r : (Bytes ⊎ ℕ) × Tables). r.1.1) e),
  );
  not_begun = λ w w' err e. sym (ap (λ (r : (Bytes ⊎ ℕ) × Tables). r.1.0) e);
  copied = λ tx items w w' e. copy_if-copied (are_fresh w.1 items) items w w' refl e;
  not_copied = λ tx items w w' err e. copy_if-failed (are_fresh w.1 items) items w w' err e;
  upserted = λ tx item w w' e. (
    sym (ap (λ (r : Option Bytes × Tables). r.1.0) e),
    sym (ap (λ (r : Option Bytes × Tables). r.1.1) e),
  );
  not_upserted = λ tx item w w' err e. sym (ap (λ (r : Option Bytes × Tables). r.1.0) e);
  committed = λ tx w w' e. sym (ap (λ (r : Option Bytes × Tables). r.1.0) e);
  not_committed = λ tx w w' err e. cc (ap (λ (r : Option Bytes × Tables). r.0) e);
  rolled_back = λ tx w. refl;
}

abbrev old_row : VectorItem ℕ
old_row = record { id = codes "a"; file_id = codes "f"; embedding = 1 ∷ 2 ∷ [] }

abbrev new_row : VectorItem ℕ
new_row = record { id = codes "a"; file_id = codes "g"; embedding = 3 ∷ 4 ∷ [] }

upsert_batch-IsAtomic_example :
    IsAtomic
      (λ (w : Tables). w.0)
      (old_row ∷ [])
      (put_all (new_row ∷ []) (old_row ∷ []))
      (upsert_batch store (new_row ∷ []) (old_row ∷ [], []))
upsert_batch-IsAtomic_example =
    upsert_batch-IsAtomic store (λ w. w.0) (λ tx w. w.1) pool-IsPostgres (new_row ∷ [])
      (old_row ∷ [], [])

parse_pg_vector_dimension-decimal_example :
    parse_pg_vector_dimension (codes "vector(" ++ (decimal 384 ++ codes ")")) ≡ inr (pos 384)
parse_pg_vector_dimension-decimal_example = parse_pg_vector_dimension-decimal 384 (omega arith)
