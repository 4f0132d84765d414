-- ===== src/KeywordIndex/Refresh.antt =====
-- How an index of sqlite_keyword_index.go is opened, rebuilt and closed. The index is locked for the
-- whole of a rebuild.
use fileprocessor.Base.{
  ◌⊎◌, inl, inr, Bool, Option, none, some, List, [], ◌∷◌, ◌==◌, if◌then◌else◌, Bytes, codes,
  bytes_eq, length,
}
use fileprocessor.Text.{trim_space}
use fileprocessor.Paths.{dir}
use fileprocessor.PgVectorStore.{Rows}
use fileprocessor.KeywordIndex.{ChunkRow, KeywordDatabase, KeywordError}

abbrev init_statements : List Bytes
init_statements =
    codes "PRAGMA journal_mode=WAL"
    ∷ codes "PRAGMA synchronous=NORMAL"
    ∷ codes "PRAGMA busy_timeout=5000"
    ∷ codes
        "CREATE VIRTUAL TABLE IF NOT EXISTS chunks_fts USING fts5(\n\t\t\tchunk_id UNINDEXED,\n\t\t\tfile_id UNINDEXED,\n\t\t\ttenant_id UNINDEXED,\n\t\t\tcontent,\n\t\t\ttokenize='unicode61'\n\t\t)"
    ∷ []

abbrev pub chunks_sql : Bytes
chunks_sql =
    codes
      "\n\t\tSELECT c.id::text, COALESCE(fc.file_id::text, ''),\n\t\t       COALESCE(c.tenant_id::text, ''), c.text\n\t\tFROM public.chunks c\n\t\tJOIN public.file_chunks fc ON fc.chunk_id = c.id\n\t\tORDER BY c.id\n\t"

abbrev pub clear_sql : Bytes
clear_sql = codes "DELETE FROM chunks_fts"

abbrev pub insert_sql : Bytes
insert_sql =
    codes "INSERT INTO chunks_fts (chunk_id, file_id, tenant_id, content) VALUES (?, ?, ?, ?)"

-- What follows a call, unless it failed; then `failed` is done to the state.
unfoldable pub go_on :
    {W E : Type 0} (wrap : E → KeywordError E) (failed : W → W)
    → Option E × W
    → (W → Option (KeywordError E) × W)
    → Option (KeywordError E) × W
go_on wrap failed (none, w) rest = rest w
go_on wrap failed (some err, w) rest = (some (wrap err), failed w)

module _ {W E X F : Type 0} (db : KeywordDatabase W E X F) where
  -- The loop over the rows, with what stands behind it: the error that ended the rows, or the commit.
  unfoldable pub insert_loop : X → List ChunkRow → Option E → W → Option (KeywordError E) × W
  insert_loop tx [] none w =
      go_on KeywordError.commit_failed (λ w'. w') (db.commit tx w) (λ w'. (none, w'))
  insert_loop tx [] (some err) w = (some (KeywordError.iterate_failed err), db.rollback tx w)
  insert_loop tx (row ∷ rows) ended w =
      go_on (KeywordError.insert_failed row.chunk_id) (db.rollback tx) (db.insert_row tx row w)
        (insert_loop tx rows ended)

  -- The rebuild in a transaction.
  unfoldable pub rebuild : List ChunkRow → Option E → (E ⊎ X) × W → Option (KeywordError E) × W
  rebuild rows ended (inl err, w) = (some (KeywordError.begin_failed err), w)
  rebuild rows ended (inr tx, w) =
      go_on KeywordError.clear_failed (db.rollback tx) (db.tx_exec tx clear_sql w) (λ w1.
        go_on KeywordError.prepare_failed (db.rollback tx) (db.prepare tx insert_sql w1)
          (insert_loop tx rows ended))

  unfoldable pub refresh_with : E ⊎ Rows E ChunkRow → W → Option (KeywordError E) × W
  refresh_with (inl err) w = (some (KeywordError.read_chunks_failed err), w)
  refresh_with (inr (rows, ended)) w = rebuild rows ended (db.begin w)

  -- `RefreshFromPostgres`; the flag tells whether there is a pool.
  unfoldable pub refresh_from_postgres : Bool → W → Option (KeywordError E) × W
  refresh_from_postgres has_pool w =
      if has_pool
      then refresh_with (db.query_chunks chunks_sql w) w
      else (some KeywordError.pool_is_nil, w)

  -- `init`.
  unfoldable init_loop : List Bytes → W → Option (KeywordError E) × W
  init_loop [] w = (none, w)
  init_loop (q ∷ qs) w =
      go_on KeywordError.initialize_failed (λ w'. w') (db.exec q w) (init_loop qs)

  -- `Close` of an index that is not nil.
  unfoldable close_index : W → Option E × W
  close_index w = db.close w

  -- The index, closed again if it could not be initialised.
  unfoldable close_failed : Option (KeywordError E) × W → Option (KeywordError E) × W
  close_failed (none, w) = (none, w)
  close_failed (some err, w) = (some err, (db.close w).1)

  unfoldable open_index : Bytes → W → Option (KeywordError E) × W
  open_index path w =
      go_on KeywordError.open_failed (λ w'. w') (db.open_database path w)
        (λ w1. close_failed (init_loop init_statements w1))

  -- `NewSQLiteKeywordIndex`: its error, if any.
  unfoldable new_sqlite_keyword_index : Bytes → W → Option (KeywordError E) × W
  new_sqlite_keyword_index path w =
      if length (trim_space path) == 0
      then (some KeywordError.path_required, w)
      else if bytes_eq path (codes ":memory:")
      then open_index path w
      else go_on KeywordError.create_directory_failed (λ w'. w') (db.mkdir_all (dir path) w)
          (open_index path)
