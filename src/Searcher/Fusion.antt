-- ===== src/Searcher/Fusion.antt =====
-- rag_searcher.go: the fusion of two rankings.
use fileprocessor.Base.{
  ℕ, ◌+◌, Bool, List, [], ◌∷◌, map, ◌==◌, if◌then◌else◌, Bytes, bytes_eq, length, take,
}

-- The floating-point numbers: the operations on them and the constants of the code, from
-- `defaultVectorWeight` to `defaultKeywordThreshold`.
pub record Floats (F : Type 0) : Type 0 where
  pub zero_score : F
  pub add : F → F → F
  pub divide : F → F → F
  pub of_int : ℕ → F
  pub at_least : F → F → Bool
  pub greater : F → F → Bool
  pub vector_weight : F
  pub keyword_weight : F
  pub rrf_k : F
  pub vector_default : F
  pub keyword_default : F

pub record VectorMatch (F : Type 0) : Type 0 where
  pub id : Bytes
  pub file_id : Bytes
  pub similarity : F

-- `fused` of the function.
pub record Fused (F : Type 0) : Type 0 where
  pub matched : VectorMatch F
  pub score : F

module _ {F : Type 0} (floats : Floats F) where
  unfoldable pub filter_matches_by_score : List (VectorMatch F) → F → List (VectorMatch F)
  filter_matches_by_score [] threshold = []
  filter_matches_by_score (m ∷ ms) threshold =
      let rest = filter_matches_by_score ms threshold in
      if floats.at_least m.similarity threshold then m ∷ rest else rest

  -- What a rank, counted from 0, adds to a score.
  unfoldable pub share : F → ℕ → F
  share weight rank = floats.divide weight (floats.add floats.rrf_k (floats.of_int (rank + 1)))

  -- `byID[match.ID]` changed by `f`, a new entry with the score 0 if there is none. The list is the
  -- map with its entries in the order in which they were made.
  unfoldable pub update : (Fused F → Fused F) → VectorMatch F → List (Fused F) → List (Fused F)
  update f m [] = f (record { matched = m; score = floats.zero_score }) ∷ []
  update f m (x ∷ xs) = if bytes_eq x.matched.id m.id then f x ∷ xs else x ∷ update f m xs

  unfoldable pub add_share : F → Fused F → Fused F
  add_share s x = record x { score = floats.add x.score s }

  unfoldable pub fill_file : VectorMatch F → Fused F → Fused F
  fill_file m x =
      if length x.matched.file_id == 0
      then record x { matched = record (x.matched) { file_id = m.file_id } }
      else x

  unfoldable pub vector_loop : ℕ → List (VectorMatch F) → List (Fused F) → List (Fused F)
  vector_loop rank [] by_id = by_id
  vector_loop rank (m ∷ ms) by_id =
      vector_loop (rank + 1) ms (update (add_share (share floats.vector_weight rank)) m by_id)

  unfoldable pub keyword_loop : ℕ → List (VectorMatch F) → List (Fused F) → List (Fused F)
  keyword_loop rank [] by_id = by_id
  keyword_loop rank (m ∷ ms) by_id = keyword_loop (rank + 1) ms (
      update (λ (x : Fused F). add_share (share floats.keyword_weight rank) (fill_file m x)) m
        by_id)

  -- `sort.SliceStable` by descending score.
  unfoldable pub insert_by_score : Fused F → List (Fused F) → List (Fused F)
  insert_by_score x [] = x ∷ []
  insert_by_score x (y ∷ ys) =
      if floats.greater y.score x.score then y ∷ insert_by_score x ys else x ∷ y ∷ ys

  unfoldable pub sort_by_score : List (Fused F) → List (Fused F)
  sort_by_score [] = []
  sort_by_score (x ∷ xs) = insert_by_score x (sort_by_score xs)

  unfoldable pub rescored : Fused F → VectorMatch F
  rescored x = record (x.matched) { similarity = x.score }

  -- `iteration` is the order in which the loop over the map finds its entries.
  unfoldable pub fuse_rrf :
      (List (Fused F) → List (Fused F))
      → List (VectorMatch F)
      → List (VectorMatch F)
      → ℕ
      → List (VectorMatch F)
  fuse_rrf iteration vector_matches keyword_matches limit =
      let by_id = keyword_loop 0 keyword_matches (vector_loop 0 vector_matches []) in
      map rescored (take limit (sort_by_score (iteration by_id)))
