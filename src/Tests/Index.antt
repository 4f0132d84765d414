-- ===== src/Tests/Index.antt =====
-- An index over a database that is the projection and what the open transaction sees of it.
use fileprocessor.Base.{
  ℕ, refl, sym, ap, ◌⊎◌, inr, true, Option, none, List, [], ◌∷◌, ◌++◌, Bytes, codes,
}
use fileprocessor.KeywordIndex.{ChunkRow, KeywordDatabase}
use fileprocessor.KeywordIndex.Refresh.{chunks_sql, refresh_from_postgres}
use fileprocessor.KeywordIndex.Atomic.{
  IsRebuilt, IsSqlite, rows_of, refresh_from_postgres-IsRebuilt,
}

-- The rows of the projection, and those that the transaction sees.
abbrev Projection : Type 0
Projection = List ChunkRow × List ChunkRow

abbrev chunk_row : ChunkRow
chunk_row = record {
  chunk_id = codes "c1";
  file_id = codes "f1";
  tenant_id = [];
  content = codes "words";
}

abbrev database : KeywordDatabase Projection Bytes ℕ ℕ
database = record {
  mkdir_all = λ path w. (none, w);
  open_database = λ path w. (none, w);
  close = λ w. (none, w);
  exec = λ sql w. (none, w);
  begin = λ w. (inr 0, (w.0, w.0));
  tx_exec = λ tx sql w. (none, (w.0, []));
  prepare = λ tx sql w. (none, w);
  insert_row = λ tx row w. (none, (w.0, w.1 ++ row ∷ []));
  commit = λ tx w. (none, (w.1, w.1));
  rollback = λ tx w. (w.0, w.0);
  query_matches = λ sql arguments w. inr ([], none);
  query_chunks = λ sql w. inr (chunk_row ∷ [], none);
  negate = λ score. score;
}

database-IsSqlite : IsSqlite database (λ w. w.0) (λ tx w. w.1)
database-IsSqlite = record {
  begun = λ w w' tx e. (
    sym (ap (λ (r : (Bytes ⊎ ℕ) × Projection). r.1.0) e),
    sym (ap (λ (r : (Bytes ⊎ ℕ) × Projection). r.1.1) e),
  );
  not_begun = λ w w' err e. sym (ap (λ (r : (Bytes ⊎ ℕ) × Projection). r.1.0) e);
  cleared = λ tx w w' e. (
    sym (ap (λ (r : Option Bytes × Projection). r.1.0) e),
    sym (ap (λ (r : Option Bytes × Projection). r.1.1) e),
  );
  not_cleared = λ tx w w' err e. sym (ap (λ (r : Option Bytes × Projection). r.1.0) e);
  prepared = λ tx w w' result e. (
    sym (ap (λ (r : Option Bytes × Projection). r.1.0) e),
    sym (ap (λ (r : Option Bytes × Projection). r.1.1) e),
  );
  inserted = λ tx row w w' e. (
    sym (ap (λ (r : Option Bytes × Projection). r.1.0) e),
    sym (ap (λ (r : Option Bytes × Projection). r.1.1) e),
  );
  not_inserted = λ tx row w w' err e. sym (ap (λ (r : Option Bytes × Projection). r.1.0) e);
  committed = λ tx w w' e. sym (ap (λ (r : Option Bytes × Projection). r.1.0) e);
  not_committed = λ tx w w' err e. cc (ap (λ (r : Option Bytes × Projection). r.0) e);
  rolled_back = λ tx w. refl;
}

refresh_from_postgres-IsRebuilt_example :
    IsRebuilt
      (λ (w : Projection). w.0)
      []
      (rows_of (database.query_chunks chunks_sql ([], [])))
      (refresh_from_postgres database true ([], []))
refresh_from_postgres-IsRebuilt_example =
    refresh_from_postgres-IsRebuilt database (λ w. w.0) (λ tx w. w.1) database-IsSqlite true
      ([], [])
