-- ===== src/PublicEmbeddings/Tenant.antt =====
-- The guard of the searches of public_embeddings_store.go: a search for a tenant queries only where
-- the tenant is set. Which rows a query then gives is for the policies of the host's database to say.
use fileprocessor.Base.{
  ◌≡◌, refl, ap, ◌⊎◌, inl, inr, false, none, some, List, [], ◌∷◌, map, ◌==◌, if_ind, Bytes, length,
  fail_as, and_then, result-cases, OnValue, call-cases, done-cases,
}
use mathlib.Core.Path.{subst}
use fileprocessor.Searcher.Fusion.{VectorMatch}
use fileprocessor.PgVectorStore.{DistanceMetric, Argument, Rows}
use fileprocessor.PgVectorStore.Queries.{
  SearchParams, Conversions, make_match, read_rows, collect_search_results,
}
use fileprocessor.PublicEmbeddings.{PublicEmbeddingsStore, EmbeddingsError, default_embedding_dim}
use fileprocessor.PublicEmbeddings.Search.{
  PgQueryer, as_match, keyword_rows, set_tenant_sql, in_tenant, in_new_transaction,
  with_tenant_guard, search_impl, search_embeddings, keyword_search_impl, keyword_search_embeddings,
}

abbrev pub match_ids : {F : Type 0} → VectorMatch F → Bytes × Bytes
match_ids m = (m.id, m.file_id)

abbrev pub row_ids : {F : Type 0} → Bytes × (Bytes × F) → Bytes × Bytes
row_ids row = (row.0, row.1.0)

-- The matches are those of the rows, one for each and in their order, by id and file.
abbrev pub AreOf : {E F : Type 0} → Rows E (Bytes × (Bytes × F)) → List (VectorMatch F) → Type 0
AreOf rows found = map match_ids found ≡ map row_ids rows.0

module _ {F : Type 0} where
  same_ids :
      (f : Bytes × (Bytes × F) → VectorMatch F)
      → ((row : Bytes × (Bytes × F)) → match_ids (f row) ≡ row_ids row)
      → (rows : List (Bytes × (Bytes × F))) → map match_ids (map f rows) ≡ map row_ids rows
  same_ids f same [] = refl
  same_ids f same (row ∷ rows) =
      rw (same_ids f same rows) (ap (λ ids. ids ∷ map row_ids rows) (same row))

  keyword_rows-AreOf :
      {E : Type 0} (rows : Rows E (Bytes × (Bytes × F))) → OnValue (AreOf rows) (keyword_rows rows)
  unfolding keyword_rows as_match
  keyword_rows-AreOf (rows, none) = same_ids as_match (λ row. refl) rows
  keyword_rows-AreOf (rows, some err) = tt

  collected-AreOf :
      {E : Type 0} (c : Conversions F) (metric : DistanceMetric)
      (rows : Rows E (Bytes × (Bytes × F)))
      → OnValue
          (AreOf rows)
          (fail_as EmbeddingsError.collect_failed (collect_search_results c metric rows))
  unfolding collect_search_results read_rows make_match fail_as and_then
  collected-AreOf c metric (rows, none) = same_ids (make_match c metric) (λ row. refl) rows
  collected-AreOf c metric (rows, some err) = tt

module _ {W E V X F : Type 0} (s : PublicEmbeddingsStore W E V X F) where
  -- What PostgreSQL documents of `SET LOCAL`, which lasts until the transaction ends. `HasSet` says
  -- that a transaction has set a tenant, `IsClean` that no connection of the pool has one, and
  -- `IsCleanBut` that none has but that of the transaction.
  pub record IsLocal (HasSet : X → Bytes → W → Type 0) (IsClean : W → Type 0)
      (IsCleanBut : X → W → Type 0) : Type 0 where
    pub not_begun : (w w' : W) (err : E) → IsClean w → s.pool.begin w ≡ (inl err, w') → IsClean w'
    pub begun : (w w' : W) (tx : X) → IsClean w → s.pool.begin w ≡ (inr tx, w') → IsCleanBut tx w'
    pub kept :
        (tx : X) (tenant_id : Bytes) (w : W)
        → IsCleanBut tx w
        → IsCleanBut tx (s.pool.tx_exec tx (set_tenant_sql s tenant_id) [] w).1
    pub set :
        (tx : X) (tenant_id : Bytes) (w w' : W)
        → s.pool.tx_exec tx (set_tenant_sql s tenant_id) [] w ≡ (none, w')
        → HasSet tx tenant_id w'
    pub ended : (tx : X) (w : W) → IsCleanBut tx w → IsClean (s.pool.rollback tx w)

  module _ (HasSet : X → Bytes → W → Type 0) (IsClean : W → Type 0) (IsCleanBut : X → W → Type 0)
      (local : IsLocal HasSet IsClean IsCleanBut) where
    -- The matches are those of a query in a transaction that has set the tenant.
    abbrev pub AreFound : Bytes → List (VectorMatch F) → Type 0
    AreFound tenant_id found =
        (tx : X) × (w : W) × (sql : Bytes) × (arguments : List (Argument V)) × (rows : Rows E
          (Bytes × (Bytes × F)))
        × HasSet tx tenant_id w
        × (s.pool.tx_query_matches tx sql arguments w ≡ inr rows)
        × AreOf rows found

    -- The matches are so, if there is no error, and no tenant is left behind on a connection.
    abbrev pub StaysWithin : Bytes → (EmbeddingsError E ⊎ List (VectorMatch F)) × W → Type 0
    StaysWithin tenant_id result = OnValue (AreFound tenant_id) result.0 × IsClean result.1

    -- What a search gives in every transaction that has set the tenant, the guarded one gives.
    with_tenant_guard-StaysWithin :
        (tenant_id : Bytes) (fn : PgQueryer W E V F → W → EmbeddingsError E ⊎ List (VectorMatch F))
        (w : W)
        → length tenant_id == 0 ≡ false
        → IsClean w
        → ((tx : X) (w' : W)
            → HasSet tx tenant_id w'
            → OnValue (AreFound tenant_id) (fn (s.pool.tx_query_matches tx) w'))
        → StaysWithin tenant_id (with_tenant_guard s tenant_id fn w)
    unfolding with_tenant_guard in_new_transaction in_tenant
    with_tenant_guard-StaysWithin tenant_id fn w some_tenant clean h =
        rw some_tenant (elim (call-cases (s.pool.begin w)) [
          | inl (err, w', failed) ↦ rw failed (tt, local.not_begun w w' err clean failed)
          | inr (tx, w1, begun) ↦
              let but = local.kept tx tenant_id w1 (local.begun w w1 tx clean begun) in
              rw begun (elim (done-cases (s.pool.tx_exec tx (set_tenant_sql s tenant_id) [] w1)) [
                | inl (w2, done) ↦ rw done (
                  h tx w2 (local.set tx tenant_id w1 w2 done),
                  local.ended tx w2 (subst (λ r. IsCleanBut tx r.1) done but),
                )
                | inr (err, w2, failed) ↦
                    rw failed (tt, local.ended tx w2 (subst (λ r. IsCleanBut tx r.1) failed but))
              ])
        ])

    -- The matches of the rows of a query in such a transaction.
    rows-AreFound :
        (tenant_id : Bytes) (tx : X) (w : W) (sql : Bytes) (arguments : List (Argument V))
        (rows : Rows E (Bytes × (Bytes × F))) (result : EmbeddingsError E ⊎ List (VectorMatch F))
        → HasSet tx tenant_id w
        → s.pool.tx_query_matches tx sql arguments w ≡ inr rows
        → OnValue (AreOf rows) result
        → OnValue (AreFound tenant_id) result
    rows-AreFound tenant_id tx w sql arguments rows (inl err) has_set got h = tt
    rows-AreFound tenant_id tx w sql arguments rows (inr found) has_set got h =
        (tx, w, sql, arguments, rows, has_set, got, h)

    search_impl-AreFound :
        (c : Conversions F) (metric : DistanceMetric) (sql : Bytes) (arguments : List (Argument V))
        (tenant_id : Bytes) (tx : X) (w : W)
        → HasSet tx tenant_id w
        → OnValue
            (AreFound tenant_id)
            (search_impl s c metric sql arguments (s.pool.tx_query_matches tx) w)
    unfolding search_impl and_then fail_as
    search_impl-AreFound c metric sql arguments tenant_id tx w has_set =
        elim (result-cases (s.pool.tx_query_matches tx sql arguments w)) [
          | inl (err, failed) ↦ rw failed tt
          | inr (rows, got) ↦
              rw (got, fail_as)
                (rows-AreFound tenant_id tx w sql arguments rows _ has_set got
                  (collected-AreOf c metric rows))
        ]

    keyword_search_impl-AreFound :
        (sql : Bytes) (arguments : List (Argument V)) (tenant_id : Bytes) (tx : X) (w : W)
        → HasSet tx tenant_id w
        → OnValue
            (AreFound tenant_id)
            (keyword_search_impl s sql arguments (s.pool.tx_query_matches tx) w)
    unfolding keyword_search_impl fail_as and_then
    keyword_search_impl-AreFound sql arguments tenant_id tx w has_set =
        elim (result-cases (s.pool.tx_query_matches tx sql arguments w)) [
          | inl (err, failed) ↦ rw failed tt
          | inr (rows, got) ↦ rw got (
              rows-AreFound tenant_id tx w sql arguments rows _ has_set got
                (keyword_rows-AreOf rows))
        ]

    -- For a tenant that is not empty, on a pool where no connection has a tenant, and by what
    -- PostgreSQL documents of `SET LOCAL`: the matches that a vector search or a keyword search
    -- returns are those of the rows of one query, one for each row and in their order, and this
    -- query was made in a transaction that has set the tenant. Whether they fail or not, both leave
    -- a pool where no connection has a tenant.
    pub searches-StayWithinTenant :
        (c : Conversions F) (embedding : List V) (query : Bytes) (params : SearchParams) (w : W)
        → length params.tenant_id == 0 ≡ false
        → IsClean w
        → StaysWithin params.tenant_id (search_embeddings s c embedding params w)
          × StaysWithin params.tenant_id (keyword_search_embeddings s query params w)
    unfolding search_embeddings keyword_search_embeddings
    searches-StayWithinTenant c embedding query params w some_tenant clean = (
      if_ind (StaysWithin params.tenant_id) (length embedding == default_embedding_dim)
          (λ _.
            with_tenant_guard-StaysWithin params.tenant_id _ w some_tenant clean
              (λ tx w' has_set. search_impl-AreFound c _ _ _ params.tenant_id tx w' has_set))
          (λ _. (tt, clean)),
      with_tenant_guard-StaysWithin params.tenant_id _ w some_tenant clean
          (λ tx w' has_set. keyword_search_impl-AreFound _ _ params.tenant_id tx w' has_set),
    )
