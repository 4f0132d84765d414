-- ===== src/PublicEmbeddings/Search.antt =====
-- The searches of public_embeddings_store.go and the transaction that guards those of a tenant.
use fileprocessor.Base.{
  ℕ, ◌+◌, ◌*◌, ◌⊎◌, inl, inr, Option, none, some, List, [], ◌∷◌, ◌++◌, map, ◌==◌, if◌then◌else◌,
  Bytes, codes, ℤ, length, fail_as, and_then,
}
use fileprocessor.Text.{join, decimal}
use fileprocessor.Searcher.Fusion.{VectorMatch}
use fileprocessor.PgVectorStore.{DistanceMetric, Argument, Rows, is_unset, metric_distance_op}
use fileprocessor.PgVectorStore.Queries.{
  SearchParams, BatchSearchRequest, BatchSearchResult, Conversions, or_ten, read_rows,
  collect_search_results, batch_results, values_sql, batch_arguments,
}
use fileprocessor.PublicEmbeddings.{PublicEmbeddingsStore, EmbeddingsError, default_embedding_dim}

-- `pgQueryer`: the queries of matches, on the pool or in a transaction.
abbrev pub PgQueryer : (W E V F : Type 0) → Type 0
PgQueryer W E V F = Bytes → List (Argument V) → W → E ⊎ Rows E (Bytes × (Bytes × F))

unfoldable pub file_id_arguments : {V : Type 0} → List Bytes → List (Argument V)
file_id_arguments [] = []
file_id_arguments (id ∷ ids) = Argument.texts_argument (id ∷ ids) ∷ []

-- The condition on the files, behind `before`, unless any file will do.
unfoldable pub file_condition : Bytes → List Bytes → Bytes
file_condition before [] = []
file_condition before (id ∷ ids) = before ++ codes "fc.file_id = ANY($3)"

unfoldable pub embeddings_search_sql : DistanceMetric → List Bytes → Bytes
embeddings_search_sql metric file_ids =
    codes "\n\t\tSELECT e.chunk_id, COALESCE(fc.file_id, ''), e.embeddings "
    ++ (metric_distance_op metric
        ++ (codes
              " $1 AS distance\n\t\tFROM public.embeddings e\n\t\tLEFT JOIN public.file_chunks fc ON fc.chunk_id = e.chunk_id\n\t\t"
            ++ (file_condition (codes "WHERE ") file_ids
                ++ codes "\n\t\tORDER BY distance ASC\n\t\tLIMIT $2\n\t")))

unfoldable pub embeddings_keyword_sql : List Bytes → Bytes
embeddings_keyword_sql file_ids =
    codes
      "\n\t\tSELECT c.id, COALESCE(fc.file_id, ''),\n\t\t       ts_rank_cd(c.fts_vector, plainto_tsquery('simple', $1)) AS score\n\t\tFROM public.chunks c\n\t\tJOIN public.file_chunks fc ON fc.chunk_id = c.id\n\t\tWHERE "
    ++ (codes "c.fts_vector @@ plainto_tsquery('simple', $1)"
        ++ (file_condition (codes " AND ") file_ids
            ++ codes "\n\t\tORDER BY score DESC, c.id\n\t\tLIMIT $2\n\t"))

unfoldable pub as_match : {F : Type 0} → Bytes × (Bytes × F) → VectorMatch F
as_match (id, (file_id, score)) = record { id = id; file_id = file_id; similarity = score }

-- What `keywordSearchImpl` makes of the rows.
unfoldable pub keyword_rows :
    {E F : Type 0} → Rows E (Bytes × (Bytes × F)) → EmbeddingsError E ⊎ List (VectorMatch F)
keyword_rows (rows, none) = inr (map as_match rows)
keyword_rows (rows, some err) = inl (EmbeddingsError.read_row_failed err)

-- The first query whose embedding has another dimension.
unfoldable find_unpinned_query : {V : Type 0} → List (BatchSearchRequest V) → Option ℕ
find_unpinned_query [] = none
find_unpinned_query (q ∷ queries) =
    let rest = find_unpinned_query queries in
    if length q.embedding == default_embedding_dim then rest else some (length q.embedding)

module _ {W E V X F : Type 0} (s : PublicEmbeddingsStore W E V X F) where
  -- The statement that sets the tenant for the transaction.
  unfoldable pub set_tenant_sql : Bytes → Bytes
  set_tenant_sql tenant_id = codes "SET LOCAL app.tenant_id = " ++ s.pool.quote_literal tenant_id

  unfoldable pub in_tenant :
      {A : Type 0}
      → (PgQueryer W E V F → W → EmbeddingsError E ⊎ A)
      → X
      → Option E × W
      → (EmbeddingsError E ⊎ A) × W
  in_tenant fn tx (some err, w) =
      (inl (EmbeddingsError.set_tenant_failed err), s.pool.rollback tx w)
  in_tenant fn tx (none, w) = (fn (s.pool.tx_query_matches tx) w, s.pool.rollback tx w)

  unfoldable pub in_new_transaction :
      {A : Type 0}
      → Bytes
      → (PgQueryer W E V F → W → EmbeddingsError E ⊎ A)
      → (E ⊎ X) × W
      → (EmbeddingsError E ⊎ A) × W
  in_new_transaction tenant_id fn (inl err, w) = (inl (EmbeddingsError.begin_failed err), w)
  in_new_transaction tenant_id fn (inr tx, w) =
      in_tenant fn tx (s.pool.tx_exec tx (set_tenant_sql tenant_id) [] w)

  -- `withTenantGuard`.
  unfoldable pub with_tenant_guard :
      {A : Type 0}
      → Bytes
      → (PgQueryer W E V F → W → EmbeddingsError E ⊎ A)
      → W
      → (EmbeddingsError E ⊎ A) × W
  with_tenant_guard tenant_id fn w =
      if length tenant_id == 0
      then (fn s.pool.query_matches w, w)
      else in_new_transaction tenant_id fn (s.pool.begin w)

  -- `searchImpl`.
  unfoldable pub search_impl :
      Conversions F
      → DistanceMetric
      → Bytes
      → List (Argument V)
      → PgQueryer W E V F
      → W
      → EmbeddingsError E ⊎ List (VectorMatch F)
  search_impl c metric sql arguments q w =
      and_then (fail_as EmbeddingsError.statement_failed (q sql arguments w))
        (λ rows. fail_as EmbeddingsError.collect_failed (collect_search_results c metric rows))

  -- `Search`.
  unfoldable pub search_embeddings :
      Conversions F → List V → SearchParams → W → (EmbeddingsError E ⊎ List (VectorMatch F)) × W
  search_embeddings c embedding params w =
      let metric = if is_unset params.metric then s.config.metric else params.metric in
      let arguments =
        Argument.vector_argument embedding
        ∷ Argument.int_argument (or_ten params.limit)
        ∷ file_id_arguments params.file_ids in
      if length embedding == default_embedding_dim
      then with_tenant_guard params.tenant_id
          (search_impl c metric (embeddings_search_sql metric params.file_ids) arguments) w
      else (inl (EmbeddingsError.embedding_dimension (length embedding)), w)

  -- `keywordSearchImpl`.
  unfoldable pub keyword_search_impl :
      Bytes → List (Argument V) → PgQueryer W E V F → W → EmbeddingsError E ⊎ List (VectorMatch F)
  keyword_search_impl sql arguments q w =
      and_then (fail_as EmbeddingsError.statement_failed (q sql arguments w)) keyword_rows

  -- `KeywordSearch`.
  unfoldable pub keyword_search_embeddings :
      Bytes → SearchParams → W → (EmbeddingsError E ⊎ List (VectorMatch F)) × W
  keyword_search_embeddings query params w =
      let arguments =
        Argument.text_argument query
        ∷ Argument.int_argument (or_ten params.limit)
        ∷ file_id_arguments params.file_ids in
      with_tenant_guard params.tenant_id
        (keyword_search_impl (embeddings_keyword_sql params.file_ids) arguments) w

  unfoldable embeddings_batch_sql : List (BatchSearchRequest V) → Bytes
  embeddings_batch_sql queries =
      let op = metric_distance_op s.config.metric in
      codes "\n\t\tWITH queries(query_id, embedding) AS (VALUES "
      ++ (join (values_sql default_embedding_dim 0 queries) (codes ", ")
          ++ (codes ")\n\t\tSELECT q.query_id, e.chunk_id, COALESCE(fc.file_id, ''), e.embeddings "
              ++ (op
                  ++ (codes
                        " q.embedding AS distance\n\t\tFROM queries q\n\t\tCROSS JOIN LATERAL (\n\t\t\tSELECT chunk_id, embeddings\n\t\t\tFROM public.embeddings\n\t\t\tORDER BY embeddings "
                      ++ (op
                          ++ (codes " q.embedding ASC\n\t\t\tLIMIT $"
                              ++ (decimal (length queries * 2 + 1)
                                  ++ codes
                                      "\n\t\t) e\n\t\tLEFT JOIN public.file_chunks fc ON fc.chunk_id = e.chunk_id\n\t\tORDER BY q.query_id, distance ASC\n\t")))))))

  unfoldable batch_of_embeddings :
      Conversions F
      → List (BatchSearchRequest V)
      → ℤ
      → W
      → EmbeddingsError E ⊎ List (BatchSearchResult F)
  batch_of_embeddings c queries limit w =
      and_then
        (fail_as EmbeddingsError.statement_failed (
          s.pool.query_batch (embeddings_batch_sql queries) (batch_arguments queries (or_ten limit))
            w))
        (λ rows.
          and_then (fail_as EmbeddingsError.collect_failed (read_rows rows))
            (λ found. inr (batch_results c s.config.metric found queries)))

  -- `BatchSearch`: on the pool, whatever the tenant.
  unfoldable batch_search_embeddings :
      Conversions F
      → List (BatchSearchRequest V)
      → ℤ
      → W
      → EmbeddingsError E ⊎ List (BatchSearchResult F)
  batch_search_embeddings c queries limit w =
      if length queries == 0 then inr [] else elim (find_unpinned_query queries) [
        | some n ↦ inl (EmbeddingsError.embedding_dimension n)
        | none ↦ batch_of_embeddings c queries limit w
      ]
