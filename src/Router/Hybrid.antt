-- ===== src/Router/Hybrid.antt =====
-- The weighted fusion of eino_retriever_router.go, and the router and the hybrid retriever of
-- eino_retriever.go over it. Callbacks and logging are left out.
use fileprocessor.Base.{
  ℕ, ◌+◌, ◌⊎◌, inl, inr, Bool, ◌||◌, Option, List, [], ◌∷◌, ◌++◌, map, ◌==◌, if◌then◌else◌, Bytes,
  bytes_eq, length,
}
use fileprocessor.Text.{trim_space}
use fileprocessor.Searcher.Fusion.{Floats}
use fileprocessor.Searcher.{Chunk, Document}
use fileprocessor.Router.Parents.{expand_parent_context}

pub record Scored (F : Type 0) : Type 0 where
  pub doc : Document F
  pub score : F

-- What a retriever named so answered.
abbrev pub Ranking : Type 0 → Type 0
Ranking F = Bytes × List (Document F)

pub data HybridError (E : Type 0) : Type 0 where
  no_documents : HybridError E
  retriever_failed : Bytes → E → HybridError E
  empty_query : HybridError E

module _ {F : Type 0} (floats : Floats F) (is_zero : F → Bool) (one : F) where
  -- `weights[name]`, 1 where that is 0 or missing.
  unfoldable weight_of : Bytes → List (Bytes × F) → F
  weight_of name [] = one
  weight_of name ((n, w) ∷ ws) =
      if bytes_eq n name then (if is_zero w then one else w) else weight_of name ws

  -- `docMap` and `docScore` after a document: the last document with the id, and its score.
  unfoldable score_document : F → Document F → List (Scored F) → List (Scored F)
  score_document s d [] = record { doc = d; score = s } ∷ []
  score_document s d (x ∷ xs) =
      if bytes_eq x.doc.id d.id
      then record { doc = d; score = floats.add x.score s } ∷ xs
      else x ∷ score_document s d xs

  -- The loop over the documents of one retriever, from rank `i` on.
  unfoldable score_ranking : F → F → ℕ → List (Document F) → List (Scored F) → List (Scored F)
  score_ranking w k i [] acc = acc
  score_ranking w k i (d ∷ ds) acc =
      score_ranking w k (i + 1) ds
        (score_document (floats.divide w (floats.add k (floats.of_int (i + 1)))) d acc)

  unfoldable score_rankings :
      List (Bytes × F) → F → List (Ranking F) → List (Scored F) → List (Scored F)
  score_rankings weights k [] acc = acc
  score_rankings weights k ((name, docs) ∷ rs) acc =
      score_rankings weights k rs (score_ranking (weight_of name weights) k 0 docs acc)

  -- `sort.SliceStable` by descending score.
  unfoldable insert_scored : Scored F → List (Scored F) → List (Scored F)
  insert_scored x [] = x ∷ []
  insert_scored x (y ∷ ys) =
      if floats.greater y.score x.score then y ∷ insert_scored x ys else x ∷ y ∷ ys

  unfoldable sort_scored : List (Scored F) → List (Scored F)
  sort_scored [] = []
  sort_scored (x ∷ xs) = insert_scored x (sort_scored xs)

  -- `doc.WithScore(score)`.
  unfoldable with_score : Scored F → Document F
  with_score x = record (x.doc) { score = x.score }

  -- `WeightedRRFFusion`. The list is the map of results in the order of its iteration, and
  -- `iteration` the order of the iteration over the scores.
  unfoldable weighted_rrf_fusion :
      {E : Type 0}
      → (List (Scored F) → List (Scored F))
      → List (Bytes × F)
      → F
      → List (Ranking F)
      → HybridError E ⊎ List (Document F)
  weighted_rrf_fusion iteration weights given [] = inl no_documents
  weighted_rrf_fusion iteration weights given ((name, docs) ∷ []) = inr docs
  weighted_rrf_fusion iteration weights given (r ∷ r' ∷ rs) =
      let k = if floats.at_least floats.zero_score given then floats.rrf_k else given in
      inr (map with_score (sort_scored (iteration (score_rankings weights k (r ∷ r' ∷ rs) []))))

  -- The loop that receives the answers of the retrievers, in the order in which they arrive.
  unfoldable receive :
      {E : Type 0}
      → List (Ranking F)
      → List (Bytes × (E ⊎ List (Document F)))
      → HybridError E ⊎ List (Ranking F)
  receive merged [] = inr merged
  receive merged ((name, inl err) ∷ arrivals) = inl (retriever_failed name err)
  receive merged ((name, inr docs) ∷ arrivals) = receive (merged ++ (name, docs) ∷ []) arrivals

  unfoldable fuse_received :
      {E : Type 0}
      → (List (Scored F) → List (Scored F))
      → List (Bytes × F)
      → HybridError E ⊎ List (Ranking F)
      → HybridError E ⊎ List (Document F)
  fuse_received iteration weights (inl err) = inl err
  fuse_received iteration weights (inr merged) =
      weighted_rrf_fusion iteration weights floats.rrf_k merged

  -- `simpleRouterRetriever.Retrieve`, once it is known in which order the answers arrive.
  unfoldable retrieve_routed :
      {E : Type 0}
      → (List (Scored F) → List (Scored F))
      → List (Bytes × F)
      → List (Bytes × (E ⊎ List (Document F)))
      → HybridError E ⊎ List (Document F)
  retrieve_routed iteration weights arrivals = fuse_received iteration weights (receive [] arrivals)

  unfoldable expand_result :
      {E : Type 0}
      → Bool
      → (List Bytes → List Bytes)
      → Option (List Bytes → E ⊎ List Chunk)
      → HybridError E ⊎ List (Document F)
      → HybridError E ⊎ List (Document F)
  expand_result expand order chunks (inl err) = inl err
  expand_result expand order chunks (inr docs) =
      inr (if expand then expand_parent_context order chunks docs else docs)

  -- `Retriever.Retrieve`: `asked` is the option of the call, `expand_parent` the field.
  unfoldable retrieve_hybrid :
      {E : Type 0}
      → (List (Scored F) → List (Scored F))
      → (List Bytes → List Bytes)
      → List (Bytes × F)
      → Option (List Bytes → E ⊎ List Chunk)
      → (expand_parent asked : Bool) → Bytes
      → List (Bytes × (E ⊎ List (Document F)))
      → HybridError E ⊎ List (Document F)
  retrieve_hybrid iteration order weights chunks expand_parent asked query arrivals =
      if length (trim_space query) == 0
      then inl empty_query
      else expand_result (asked || expand_parent) order chunks
          (retrieve_routed iteration weights arrivals)
