-- ===== src/PgVectorStore/Queries.antt =====
-- The queries of pgvector_store.go: `Search`, `BatchSearch` and what they collect.
use fileprocessor.Base.{
  ℕ, ◌+◌, ◌*◌, ◌⊎◌, inl, inr, Option, none, some, List, [], ◌∷◌, ◌++◌, map, ◌==◌, if◌then◌else◌,
  Bytes, codes, bytes_eq, ℤ, is_nonpos, pos, length, fail_as, and_then,
}
use fileprocessor.Text.{join, decimal}
use fileprocessor.Searcher.Fusion.{VectorMatch}
use fileprocessor.PgVectorStore.{
  DistanceMetric, Argument, Rows, PgVectorStore, StoreError, is_unset, metric_distance_op, differs,
  table_name,
}

pub record SearchParams : Type 0 where
  pub limit : ℤ
  pub metric : DistanceMetric
  pub file_ids : List Bytes
  pub tenant_id : Bytes

pub record BatchSearchRequest (V : Type 0) : Type 0 where
  pub query_id : Bytes
  pub embedding : List V

pub record BatchSearchResult (F : Type 0) : Type 0 where
  pub query_id : Bytes
  pub matches : List (VectorMatch F)

-- The floating-point operations that turn a distance into a similarity: `1.0 - d`, `-d` and
-- `1.0 / (1.0 + d)`.
pub record Conversions (F : Type 0) : Type 0 where
  pub one_minus : F → F
  pub negate : F → F
  pub inverse_of_succ : F → F

-- `if limit <= 0 { limit = 10 }`.
unfoldable pub or_ten : ℤ → ℤ
or_ten limit = if is_nonpos limit then pos 10 else limit

-- The rows as they are read, unless an error ended them.
unfoldable pub read_rows : {E R : Type 0} → Rows E R → StoreError E ⊎ List R
read_rows (rows, none) = inr rows
read_rows (rows, some err) = inl (StoreError.read_rows_failed err)

module _ {F : Type 0} (c : Conversions F) where
  -- `distanceToSimilarityPg`.
  unfoldable pub distance_to_similarity : F → DistanceMetric → F
  distance_to_similarity distance DistanceMetric.cosine = c.one_minus distance
  distance_to_similarity distance DistanceMetric.inner_product = c.negate distance
  distance_to_similarity distance DistanceMetric.euclidean = c.inverse_of_succ distance
  distance_to_similarity distance (DistanceMetric.other_metric name) = c.inverse_of_succ distance

  unfoldable pub make_match : DistanceMetric → Bytes × (Bytes × F) → VectorMatch F
  make_match metric (id, (file_id, distance)) = record {
    id = id;
    file_id = file_id;
    similarity = distance_to_similarity distance metric;
  }

  -- `collectSearchResults`.
  unfoldable pub collect_search_results :
      {E : Type 0}
      → DistanceMetric
      → Rows E (Bytes × (Bytes × F))
      → StoreError E ⊎ List (VectorMatch F)
  collect_search_results metric rows =
      and_then (read_rows rows) (λ found. inr (map (make_match metric) found))

  -- `byID[qid]`, once all rows are in the map: the matches of the rows with the id, in order.
  unfoldable pub matches_of :
      DistanceMetric → Bytes → List (Bytes × (Bytes × (Bytes × F))) → List (VectorMatch F)
  matches_of metric query_id [] = []
  matches_of metric query_id ((id, row) ∷ rows) =
      let rest = matches_of metric query_id rows in
      if bytes_eq id query_id then make_match metric row ∷ rest else rest

  unfoldable pub batch_results :
      {V : Type 0}
      → DistanceMetric
      → List (Bytes × (Bytes × (Bytes × F)))
      → List (BatchSearchRequest V)
      → List (BatchSearchResult F)
  batch_results metric rows [] = []
  batch_results metric rows (q ∷ queries) =
      record { query_id = q.query_id; matches = matches_of metric q.query_id rows }
      ∷ batch_results metric rows queries

-- The list of values of a batch, from query `i` on.
unfoldable pub values_sql : {V : Type 0} → ℕ → ℕ → List (BatchSearchRequest V) → List Bytes
values_sql dim i [] = []
values_sql dim i (q ∷ queries) =
    (codes "($"
      ++ (decimal (i * 2 + 1)
          ++ (codes "::text, $"
              ++ (decimal (i * 2 + 2) ++ (codes "::vector(" ++ (decimal dim ++ codes "))"))))))
    ∷ values_sql dim (i + 1) queries

unfoldable pub batch_arguments : {V : Type 0} → List (BatchSearchRequest V) → ℤ → List (Argument V)
batch_arguments [] limit = Argument.int_argument limit ∷ []
batch_arguments (q ∷ queries) limit =
    Argument.text_argument q.query_id
    ∷ Argument.vector_argument q.embedding
    ∷ batch_arguments queries limit

-- The first query whose embedding has another dimension than the first one's.
unfoldable find_other : {V : Type 0} → ℕ → List (BatchSearchRequest V) → Option ℕ
find_other dim [] = none
find_other dim (q ∷ queries) =
    let rest = find_other dim queries in
    if length q.embedding == dim then rest else some (length q.embedding)

module _ {W E V X F : Type 0} (c : Conversions F) (s : PgVectorStore W E V X F) where
  unfoldable pub search_sql : DistanceMetric → Bytes
  search_sql metric =
      codes "\n\t\tSELECT id, file_id, embedding "
      ++ (metric_distance_op metric
          ++ (codes " $1 AS distance\n\t\tFROM "
              ++ (table_name s ++ codes "\n\t\tORDER BY distance ASC\n\t\tLIMIT $2\n\t")))

  -- `Search`.
  unfoldable pub search : List V → SearchParams → W → StoreError E ⊎ List (VectorMatch F)
  search embedding params w =
      let metric = if is_unset params.metric then s.config.metric else params.metric in
      let arguments =
        Argument.vector_argument embedding ∷ Argument.int_argument (or_ten params.limit) ∷ [] in
      if differs (length embedding) s.dim
      then inl (StoreError.embedding_dimension (length embedding) s.dim)
      else and_then
          (fail_as StoreError.statement_failed
            (s.pool.query_matches (search_sql metric) arguments w))
          (λ rows. collect_search_results c metric rows)

  unfoldable batch_sql : List (BatchSearchRequest V) → ℕ → Bytes
  batch_sql queries dim =
      let op = metric_distance_op s.config.metric in
      codes "\n\t\tWITH queries(query_id, embedding) AS (VALUES "
      ++ (join (values_sql dim 0 queries) (codes ", ")
          ++ (codes ")\n\t\tSELECT q.query_id, v.id, v.file_id, v.embedding "
              ++ (op
                  ++ (codes
                        " q.embedding AS distance\n\t\tFROM queries q\n\t\tCROSS JOIN LATERAL (\n\t\t\tSELECT id, file_id, embedding\n\t\t\tFROM "
                      ++ (table_name s
                          ++ (codes "\n\t\t\tORDER BY embedding "
                              ++ (op
                                  ++ (codes " q.embedding ASC\n\t\t\tLIMIT $"
                                      ++ (decimal (length queries * 2 + 1)
                                          ++ codes
                                              "\n\t\t) v\n\t\tORDER BY q.query_id, distance ASC\n\t")))))))))

  -- `BatchSearch`, of queries with the dimension of the first.
  unfoldable batch_of :
      List (BatchSearchRequest V) → ℕ → ℤ → W → StoreError E ⊎ List (BatchSearchResult F)
  batch_of queries dim limit w =
      and_then
        (fail_as StoreError.statement_failed
          (s.pool.query_batch (batch_sql queries dim) (batch_arguments queries (or_ten limit)) w))
        (λ rows.
          and_then (read_rows rows) (λ found. inr (batch_results c s.config.metric found queries)))

  unfoldable batch_search :
      List (BatchSearchRequest V) → ℤ → W → StoreError E ⊎ List (BatchSearchResult F)
  batch_search [] limit w = inr []
  batch_search (q ∷ queries) limit w = elim (find_other (length q.embedding) (q ∷ queries)) [
    | some n ↦ inl (StoreError.dimension_mismatch (pos n) (pos (length q.embedding)))
    | none ↦ batch_of (q ∷ queries) (length q.embedding) limit w
  ]
