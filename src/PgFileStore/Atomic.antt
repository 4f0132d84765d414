-- ===== src/PgFileStore/Atomic.antt =====
-- The transactions of the file store: all of their statements take effect, or none.
use fileprocessor.Base.{
  ◌≡◌, sym, ◌∙◌, inl, inr, Option, none, some, List, [], ◌∷◌, call-cases, done-cases,
}
use mathlib.Core.Path.{subst}
use fileprocessor.PgFileStore.{
  Statement, FilePool, PostgresFileStore, FileStoreError, done_or, committed_or, run_statements,
  end_transaction, in_transaction,
}

-- The data after so many statements, by the effect of each.
unfoldable pub after_all : {D T : Type 0} → (Statement T → D → D) → List (Statement T) → D → D
after_all effect [] d = d
after_all effect (st ∷ sts) d = after_all effect sts (effect st d)

-- The data are the new ones if there was no error, and the old ones if there was.
abbrev pub IsWhole :
    {W E D : Type 0} → (W → D) → (old new : D) → Option (FileStoreError E) × W → Type 0
IsWhole tables old new (none, w) = tables w ≡ new
IsWhole tables old new (some err, w) = tables w ≡ old

-- What PostgreSQL documents of a transaction, by the data of the tables in a state, those that the
-- transaction sees, and the effect of a statement on data.
pub record IsTransactional {W E X T D : Type 0} (pool : FilePool W E X T) (tables : W → D)
    (seen : X → W → D) (effect : Statement T → D → D) : Type 0 where
  pub begun :
      (w w' : W) (tx : X)
      → pool.begin w ≡ (inr tx, w')
      → (tables w' ≡ tables w) × (seen tx w' ≡ tables w)
  pub not_begun : (w w' : W) (err : E) → pool.begin w ≡ (inl err, w') → tables w' ≡ tables w
  pub executed :
      (tx : X) (st : Statement T) (w w' : W)
      → pool.tx_exec tx st w ≡ (none, w')
      → (tables w' ≡ tables w) × (seen tx w' ≡ effect st (seen tx w))
  pub not_executed :
      (tx : X) (st : Statement T) (w w' : W) (err : E)
      → pool.tx_exec tx st w ≡ (some err, w')
      → tables w' ≡ tables w
  pub committed : (tx : X) (w w' : W) → pool.commit tx w ≡ (none, w') → tables w' ≡ seen tx w
  pub not_committed :
      (tx : X) (w w' : W) (err : E) → pool.commit tx w ≡ (some err, w') → tables w' ≡ tables w
  pub rolled_back : (tx : X) (w : W) → tables (pool.rollback tx w) ≡ tables w

module _ {W E X T D : Type 0} (s : PostgresFileStore W E X T) (tables : W → D) (seen : X → W → D)
    (effect : Statement T → D → D) (pg : IsTransactional s.pool tables seen effect) where
  run_statements-IsWhole :
      (tx : X) (sts : List (Statement T)) (w : W)
      → IsWhole tables
          (tables w)
          (after_all effect sts (seen tx w))
          (run_statements s.pool tx sts w)
  unfolding run_statements done_or committed_or after_all
  run_statements-IsWhole tx [] w = elim (done-cases (s.pool.commit tx w)) [
    | inl (w', done) ↦ rw done (pg.committed tx w w' done)
    | inr (err, w', failed) ↦ rw failed (pg.not_committed tx w w' err failed)
  ]
  run_statements-IsWhole tx (st ∷ sts) w = elim (done-cases (s.pool.tx_exec tx st w)) [
    | inl (w', done) ↦
        let (same, changed) = pg.executed tx st w w' done in
        rw (done, sym same, sym changed) (run_statements-IsWhole tx sts w')
    | inr (err, w', failed) ↦ rw failed (pg.not_executed tx st w w' err failed)
  ]

  end_transaction-IsWhole :
      (tx : X) (old new : D) (result : Option (FileStoreError E) × W)
      → IsWhole tables old new result
      → IsWhole tables old new (end_transaction s.pool tx result)
  unfolding end_transaction
  end_transaction-IsWhole tx old new (none, w) h = pg.rolled_back tx w ∙ h
  end_transaction-IsWhole tx old new (some err, w) h = pg.rolled_back tx w ∙ h

  -- All statements of a transaction take effect, in their order, or none.
  pub in_transaction-IsWhole :
      (sts : List (Statement T)) (w : W)
      → IsWhole tables
          (tables w)
          (after_all effect sts (tables w))
          (in_transaction s.pool sts (s.pool.begin w))
  unfolding in_transaction
  in_transaction-IsWhole sts w = elim (call-cases (s.pool.begin w)) [
    | inl (err, w', failed) ↦ rw failed (pg.not_begun w w' err failed)
    | inr (tx, w', begun) ↦
        let (same, sees) = pg.begun w w' tx begun in
        rw (begun, sym same)
          (end_transaction-IsWhole tx (tables w') (after_all effect sts (tables w')) _ (
            subst
              (λ (d : D).
                IsWhole tables (tables w') (after_all effect sts d)
                  (run_statements s.pool tx sts w'))
              (sees ∙ sym same) (run_statements-IsWhole tx sts w')))
  ]
