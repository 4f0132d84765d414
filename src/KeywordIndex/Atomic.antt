-- ===== src/KeywordIndex/Atomic.antt =====
-- `RefreshFromPostgres` against the projection: it is rebuilt whole or not at all.
use fileprocessor.Base.{
  ◌≡◌, refl, sym, ap, ◌∙◌, ◌⊎◌, inl, inr, Bool, true, false, Option, none, some, List, [], ◌∷◌,
  ◌++◌, append-nil, snoc-append, call-cases, done-cases,
}
use mathlib.Core.Path.{subst}
use fileprocessor.PgVectorStore.{Rows}
use fileprocessor.KeywordIndex.{ChunkRow, KeywordDatabase, KeywordError}
use fileprocessor.KeywordIndex.Refresh.{
  clear_sql, insert_sql, chunks_sql, go_on, insert_loop, rebuild, refresh_with,
  refresh_from_postgres,
}

-- Without an error the projection has the rows that could be read, all of them, and with an error it
-- is the old one.
abbrev pub IsRebuilt :
    {W E : Type 0}
    → (W → List ChunkRow)
    → (old new : List ChunkRow) → Option (KeywordError E) × W
    → Type 0
IsRebuilt table old new (none, w) = table w ≡ new
IsRebuilt table old new (some err, w) = table w ≡ old

-- The rows that a query gives, if none ended in an error.
unfoldable pub rows_of : {E : Type 0} → E ⊎ Rows E ChunkRow → List ChunkRow
rows_of (inl err) = []
rows_of (inr (rows, ended)) = rows

module _ {W E X F : Type 0} (db : KeywordDatabase W E X F) where
  -- What SQLite documents of the calls that a rebuild makes, by the rows of the projection in a
  -- state, and those that a transaction sees.
  pub record IsSqlite (table : W → List ChunkRow) (work : X → W → List ChunkRow) : Type 0 where
    pub begun :
        (w w' : W) (tx : X)
        → db.begin w ≡ (inr tx, w')
        → (table w' ≡ table w) × (work tx w' ≡ table w)
    pub not_begun : (w w' : W) (err : E) → db.begin w ≡ (inl err, w') → table w' ≡ table w
    pub cleared :
        (tx : X) (w w' : W)
        → db.tx_exec tx clear_sql w ≡ (none, w')
        → (table w' ≡ table w) × (work tx w' ≡ [])
    pub not_cleared :
        (tx : X) (w w' : W) (err : E)
        → db.tx_exec tx clear_sql w ≡ (some err, w')
        → table w' ≡ table w
    pub prepared :
        (tx : X) (w w' : W) (result : Option E)
        → db.prepare tx insert_sql w ≡ (result, w')
        → (table w' ≡ table w) × (work tx w' ≡ work tx w)
    pub inserted :
        (tx : X) (row : ChunkRow) (w w' : W)
        → db.insert_row tx row w ≡ (none, w')
        → (table w' ≡ table w) × (work tx w' ≡ work tx w ++ row ∷ [])
    pub not_inserted :
        (tx : X) (row : ChunkRow) (w w' : W) (err : E)
        → db.insert_row tx row w ≡ (some err, w')
        → table w' ≡ table w
    pub committed : (tx : X) (w w' : W) → db.commit tx w ≡ (none, w') → table w' ≡ work tx w
    pub not_committed :
        (tx : X) (w w' : W) (err : E) → db.commit tx w ≡ (some err, w') → table w' ≡ table w
    pub rolled_back : (tx : X) (w : W) → table (db.rollback tx w) ≡ table w

  module _ (table : W → List ChunkRow) (work : X → W → List ChunkRow)
      (lite : IsSqlite table work) where
    insert_loop-IsRebuilt :
        (tx : X) (rows : List ChunkRow) (ended : Option E) (w : W)
        → IsRebuilt table (table w) (work tx w ++ rows) (insert_loop db tx rows ended w)
    unfolding insert_loop go_on
    insert_loop-IsRebuilt tx [] none w = elim (done-cases (db.commit tx w)) [
      | inl (w', done) ↦ rw done (lite.committed tx w w' done ∙ sym (append-nil (work tx w)))
      | inr (err, w', failed) ↦ rw failed (lite.not_committed tx w w' err failed)
    ]
    insert_loop-IsRebuilt tx [] (some err) w = lite.rolled_back tx w
    insert_loop-IsRebuilt tx (row ∷ rows) ended w = elim (done-cases (db.insert_row tx row w)) [
      | inl (w', done) ↦
          let (same, more) = lite.inserted tx row w w' done in
          let whole : work tx w' ++ rows ≡ work tx w ++ row ∷ rows =
            ap (λ (seen : List ChunkRow). seen ++ rows) more ∙ snoc-append (work tx w) row rows in
          rw (done, sym same, sym whole) (insert_loop-IsRebuilt tx rows ended w')
      | inr (err, w', failed) ↦
          rw failed (lite.rolled_back tx w' ∙ lite.not_inserted tx row w w' err failed)
    ]

    rebuild_cleared-IsRebuilt :
        (tx : X) (rows : List ChunkRow) (ended : Option E) (w : W)
        → work tx w ≡ []
        → IsRebuilt table (table w) rows (
            go_on KeywordError.prepare_failed
              (db.rollback tx)
              (db.prepare tx insert_sql w)
              (insert_loop db tx rows ended))
    unfolding go_on
    rebuild_cleared-IsRebuilt tx rows ended w empty =
        elim (done-cases (db.prepare tx insert_sql w)) [
          | inl (w', done) ↦
              let (same, sees) = lite.prepared tx w w' none done in
              rw (done, sym same)
                (subst
                  (λ (seen : List ChunkRow).
                    IsRebuilt table (table w') (seen ++ rows) (insert_loop db tx rows ended w'))
                  (sees ∙ empty) (insert_loop-IsRebuilt tx rows ended w'))
          | inr (err, w', failed) ↦
              let (same, sees) = lite.prepared tx w w' (some err) failed in
              rw failed (lite.rolled_back tx w' ∙ same)
        ]

    rebuild-IsRebuilt :
        (rows : List ChunkRow) (ended : Option E) (w : W)
        → IsRebuilt table (table w) rows (rebuild db rows ended (db.begin w))
    unfolding rebuild go_on
    rebuild-IsRebuilt rows ended w = elim (call-cases (db.begin w)) [
      | inl (err, w1, failed) ↦ rw failed (lite.not_begun w w1 err failed)
      | inr (tx, w1, begun) ↦
          let (same, _) = lite.begun w w1 tx begun in
          elim (done-cases (db.tx_exec tx clear_sql w1)) [
            | inl (w2, done) ↦
                let (kept, empty) = lite.cleared tx w1 w2 done in
                rw (begun, done, sym (kept ∙ same))
                  (rebuild_cleared-IsRebuilt tx rows ended w2 empty)
            | inr (err, w2, failed) ↦
                rw (begun, failed)
                  (lite.rolled_back tx w2 ∙ lite.not_cleared tx w1 w2 err failed ∙ same)
          ]
    ]

    refresh_with-IsRebuilt :
        (found : E ⊎ Rows E ChunkRow) (w : W)
        → IsRebuilt table (table w) (rows_of found) (refresh_with db found w)
    unfolding refresh_with rows_of
    refresh_with-IsRebuilt (inl err) w = refl
    refresh_with-IsRebuilt (inr (rows, ended)) w = rebuild-IsRebuilt rows ended w

    -- By what SQLite documents, a refresh rebuilds the projection whole or not at all: without an
    -- error its rows are those that PostgreSQL gave, in order, and with an error, at whatever row,
    -- they are the old ones.
    pub refresh_from_postgres-IsRebuilt :
        (has_pool : Bool) (w : W)
        → IsRebuilt table
            (table w)
            (rows_of (db.query_chunks chunks_sql w))
            (refresh_from_postgres db has_pool w)
    unfolding refresh_from_postgres
    refresh_from_postgres-IsRebuilt true w = refresh_with-IsRebuilt (db.query_chunks chunks_sql w) w
    refresh_from_postgres-IsRebuilt false w = refl
