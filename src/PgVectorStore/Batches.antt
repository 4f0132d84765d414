-- ===== src/PgVectorStore/Batches.antt =====
-- `UpsertBatch` against a table: a batch is stored whole or not at all.
use fileprocessor.Base.{
  ◌≡◌, refl, sym, ap, ◌∙◌, inl, inr, Bool, false, ◌||◌, Option, none, some, List, [], ◌∷◌, ◌++◌,
  append-nil, arith, ◌==◌, if◌then◌else◌, Option-cases, Bytes, codes, bytes_eq, length, snoc-append,
  call-cases, done-cases,
}
use mathlib.Core.Path.{subst}
use fileprocessor.PgVectorStore.{
  VectorItem, PgVectorStore, StoreError, upsert_sql, row_arguments, checked,
}
use fileprocessor.PgVectorStore.Rows.{
  columns, find_misfit, roll_back, after_row, upsert_loop, fall_back, after_bulk, copy_batch,
  upsert_batch,
}

module _ {V : Type 0} where
  -- Whether a row has the id.
  unfoldable pub has_id : Bytes → List (VectorItem V) → Bool
  has_id id [] = false
  has_id id (row ∷ rows) = bytes_eq row.id id || has_id id rows

  -- The table after a row was inserted, or has taken the place of the one with its id.
  unfoldable pub put : VectorItem V → List (VectorItem V) → List (VectorItem V)
  put item [] = item ∷ []
  put item (row ∷ rows) =
      let rest = put item rows in if bytes_eq row.id item.id then item ∷ rows else row ∷ rest

  -- The table after so many rows, one after the other.
  unfoldable pub put_all : List (VectorItem V) → List (VectorItem V) → List (VectorItem V)
  unfolding put
  put_all [] rows = rows
  put_all (item ∷ items) rows = put_all items (put item rows)

  -- No two of the items have the same id, and no row has one of theirs.
  abbrev pub AreFresh : List (VectorItem V) → List (VectorItem V) → Type 0
  AreFresh rows [] = Unit
  AreFresh rows (item ∷ items) = (has_id item.id rows ≡ false) × AreFresh (rows ++ item ∷ []) items

  put-fresh :
      (item : VectorItem V) (rows : List (VectorItem V))
      → has_id item.id rows ≡ false
      → put item rows ≡ rows ++ item ∷ []
  unfolding put has_id
  put-fresh item [] fresh = refl
  put-fresh item (row ∷ rows) fresh = ground (arith, put-fresh item rows)

  put_all-fresh :
      (items rows : List (VectorItem V)) → AreFresh rows items → put_all items rows ≡ rows ++ items
  unfolding put_all
  put_all-fresh [] rows _ = sym (append-nil rows)
  put_all-fresh (item ∷ items) rows (fresh, h) =
      rw (put-fresh item rows fresh)
        (put_all-fresh items (rows ++ item ∷ []) h ∙ snoc-append rows item items)

-- The table is the new one if there was no error, and the old one if there was.
abbrev pub IsAtomic :
    {W E V : Type 0}
    → (W → List (VectorItem V))
    → (old new : List (VectorItem V)) → Option (StoreError E) × W
    → Type 0
IsAtomic table old new (none, w) = table w ≡ new
IsAtomic table old new (some err, w) = table w ≡ old

module _ {W E V X F : Type 0} (s : PgVectorStore W E V X F) where
  -- What PostgreSQL documents of the calls that a batch makes, by the rows of the table in a state,
  -- and those that a transaction sees. COPY inserts all rows, and fails if two have the same id; the
  -- upsert statement inserts or updates its row; what a transaction does is seen in the table once
  -- it is committed, and never if it is not.
  pub record IsPostgres (table : W → List (VectorItem V)) (work : X → W → List (VectorItem V))
      : Type 0 where
    pub begun :
        (w w' : W) (tx : X)
        → s.pool.begin w ≡ (inr tx, w')
        → (table w' ≡ table w) × (work tx w' ≡ table w)
    pub not_begun : (w w' : W) (err : E) → s.pool.begin w ≡ (inl err, w') → table w' ≡ table w
    pub copied :
        (tx : X) (items : List (VectorItem V)) (w w' : W)
        → s.pool.copy_from tx (s.schema ∷ codes "vectors" ∷ []) columns items w ≡ (none, w')
        → (table w' ≡ table w) × ((work tx w' ≡ work tx w ++ items) × AreFresh (work tx w) items)
    pub not_copied :
        (tx : X) (items : List (VectorItem V)) (w w' : W) (err : E)
        → s.pool.copy_from tx (s.schema ∷ codes "vectors" ∷ []) columns items w ≡ (some err, w')
        → table w' ≡ table w
    pub upserted :
        (tx : X) (item : VectorItem V) (w w' : W)
        → s.pool.tx_exec tx (upsert_sql s) (row_arguments item) w ≡ (none, w')
        → (table w' ≡ table w) × (work tx w' ≡ put item (work tx w))
    pub not_upserted :
        (tx : X) (item : VectorItem V) (w w' : W) (err : E)
        → s.pool.tx_exec tx (upsert_sql s) (row_arguments item) w ≡ (some err, w')
        → table w' ≡ table w
    pub committed : (tx : X) (w w' : W) → s.pool.commit tx w ≡ (none, w') → table w' ≡ work tx w
    pub not_committed :
        (tx : X) (w w' : W) (err : E) → s.pool.commit tx w ≡ (some err, w') → table w' ≡ table w
    pub rolled_back : (tx : X) (w : W) → table (s.pool.rollback tx w) ≡ table w

  module _ (table : W → List (VectorItem V)) (work : X → W → List (VectorItem V))
      (pg : IsPostgres table work) where
    roll_back-IsAtomic :
        (tx : X) (old new : List (VectorItem V)) (result : Option (StoreError E) × W)
        → IsAtomic table old new result
        → IsAtomic table old new (roll_back s tx result)
    unfolding roll_back
    roll_back-IsAtomic tx old new (none, w) h = pg.rolled_back tx w ∙ h
    roll_back-IsAtomic tx old new (some err, w) h = pg.rolled_back tx w ∙ h

    commit-IsAtomic :
        (tx : X) (w : W)
        → IsAtomic table
            (table w)
            (work tx w)
            (checked StoreError.commit_failed (s.pool.commit tx w))
    unfolding checked
    commit-IsAtomic tx w = elim (done-cases (s.pool.commit tx w)) [
      | inl (w', done) ↦ rw done (pg.committed tx w w' done)
      | inr (err, w', failed) ↦ rw failed (pg.not_committed tx w w' err failed)
    ]

    upsert_loop-IsAtomic :
        (tx : X) (items : List (VectorItem V)) (w : W)
        → IsAtomic table (table w) (put_all items (work tx w)) (upsert_loop s tx items w)
    unfolding upsert_loop after_row put_all
    upsert_loop-IsAtomic tx [] w = commit-IsAtomic tx w
    upsert_loop-IsAtomic tx (item ∷ items) w =
        elim (done-cases (s.pool.tx_exec tx (upsert_sql s) (row_arguments item) w)) [
          | inl (w', done) ↦
              let (same, changed) = pg.upserted tx item w w' done in
              rw (done, sym same, sym changed) (upsert_loop-IsAtomic tx items w')
          | inr (err, w', failed) ↦ rw failed (pg.not_upserted tx item w w' err failed)
        ]

    fall_back-IsAtomic :
        (items : List (VectorItem V)) (w : W)
        → IsAtomic table (table w) (put_all items (table w)) (fall_back s items (s.pool.begin w))
    unfolding fall_back
    fall_back-IsAtomic items w = elim (call-cases (s.pool.begin w)) [
      | inl (err, w', failed) ↦ rw failed (pg.not_begun w w' err failed)
      | inr (tx, w', begun) ↦
          let (same, sees) = pg.begun w w' tx begun in
          rw (begun, sym same)
            (roll_back-IsAtomic tx (table w') (put_all items (table w')) _ (
              subst
                (λ (rows : List (VectorItem V)).
                  IsAtomic table (table w') (put_all items rows) (upsert_loop s tx items w'))
                (sees ∙ sym same) (upsert_loop-IsAtomic tx items w')))
    ]

    after_bulk-IsAtomic :
        (tx : X) (items : List (VectorItem V)) (w : W)
        → work tx w ≡ table w
        → IsAtomic table (table w) (put_all items (table w)) (
            after_bulk s tx items
              (s.pool.copy_from tx (s.schema ∷ codes "vectors" ∷ []) columns items w))
    unfolding after_bulk
    after_bulk-IsAtomic tx items w sees =
        elim (done-cases (s.pool.copy_from tx (s.schema ∷ codes "vectors" ∷ []) columns items w)) [
          | inl (w', done) ↦
              let (same, (changed, fresh)) = pg.copied tx items w w' done in
              let whole : work tx w' ≡ put_all items (table w) =
                changed ∙ sym (put_all-fresh items (work tx w) fresh) ∙ ap (put_all items) sees in
              rw (done, sym same)
                (subst
                  (λ (rows : List (VectorItem V)).
                    IsAtomic table (table w') rows
                      (checked StoreError.commit_failed (s.pool.commit tx w')))
                  (whole ∙ ap (put_all items) (sym same)) (commit-IsAtomic tx w'))
          | inr (err, w', failed) ↦
              let same = pg.rolled_back tx w' ∙ pg.not_copied tx items w w' err failed in
              rw (failed, sym same) (fall_back-IsAtomic items (s.pool.rollback tx w'))
        ]

    copy_batch-IsAtomic :
        (items : List (VectorItem V)) (w : W)
        → IsAtomic table (table w) (put_all items (table w)) (copy_batch s items (s.pool.begin w))
    unfolding copy_batch
    copy_batch-IsAtomic items w = elim (call-cases (s.pool.begin w)) [
      | inl (err, w', failed) ↦ rw failed (pg.not_begun w w' err failed)
      | inr (tx, w', begun) ↦
          let (same, sees) = pg.begun w w' tx begun in
          rw (begun, sym same)
            (roll_back-IsAtomic tx (table w') (put_all items (table w')) _
              (after_bulk-IsAtomic tx items w' (sees ∙ sym same)))
    ]

    -- By what PostgreSQL documents, a batch is stored whole or not at all, whether it is copied or
    -- takes the fallback: without an error the table is what it is after inserting or updating the
    -- rows one after the other, and with an error, a wrong dimension included, it is unchanged.
    pub upsert_batch-IsAtomic :
        (items : List (VectorItem V)) (w : W)
        → IsAtomic table (table w) (put_all items (table w)) (upsert_batch s items w)
    unfolding upsert_batch
    upsert_batch-IsAtomic [] w = unfold put_all in refl
    upsert_batch-IsAtomic (item ∷ items) w =
        let some_rows : length (item ∷ items) == 0 ≡ false = ground arith in
        elim (Option-cases (find_misfit s.dim (item ∷ items))) [
          | inr (misfit, found) ↦ rw (some_rows, found) refl
          | inl fit ↦ rw (some_rows, fit) (copy_batch-IsAtomic (item ∷ items) w)
        ]
