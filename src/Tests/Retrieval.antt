-- ===== src/Tests/Retrieval.antt =====
-- The two retrievers on a store of two chunks, and a fallback that fails too.
use Prim.Native.Nat.{◌/◌}
use fileprocessor.Base.{
  ℕ, ◌+◌, ◌≡◌, refl, inl, inr, some, List, [], ◌∷◌, map, ltb, leb, Bytes, codes, pos, take,
}
use fileprocessor.FallbackEmbedder.{
  FallbackEmbedder, is_credit_error, retry, after_primary, embed_with_fallback, FailsBy,
  embed_with_fallback-FailsBy,
}
use fileprocessor.Text.{contains, has_prefix}
use fileprocessor.Searcher.Fusion.{Floats, VectorMatch, filter_matches_by_score}
use fileprocessor.Searcher.{Chunk, threshold}
use fileprocessor.PgVectorStore.{DistanceMetric}
use fileprocessor.Router.{
  VectorRetriever, CallOptions, top_limit, make_chunk_document, vector_options, retrieve_vector,
}
use fileprocessor.Router.Hydration.{retrieve_vector-take}

abbrev scores : Floats ℕ
scores = record {
  zero_score = 0;
  add = λ a b. a + b;
  divide = λ a b. a / b;
  of_int = λ n. n;
  at_least = λ a b. leb b a;
  greater = λ a b. ltb b a;
  vector_weight = 70_000;
  keyword_weight = 30_000;
  rrf_k = 60;
  vector_default = 15;
  keyword_default = 30;
}

abbrev hit : Bytes → ℕ → VectorMatch ℕ
hit id similarity = record { id = id; file_id = codes "f1"; similarity = similarity }

abbrev stored : Bytes → Chunk
stored id = record {
  id = id;
  text = codes "text";
  file_id = codes "f1";
  chunk_type = [];
  index = pos 0;
  parent_id = [];
  metadata = [];
}

abbrev all_hits : List (VectorMatch ℕ)
all_hits = hit (codes "a") 90 ∷ hit (codes "b") 50 ∷ hit (codes "c") 5 ∷ []

abbrev two_chunks : List Chunk
two_chunks = stored (codes "a") ∷ stored (codes "b") ∷ []

-- One document, of the file `f1`.
abbrev ask_one : CallOptions ℕ
ask_one = record { top_k = some (pos 1); apply = λ o. record o { file_ids = codes "f1" ∷ [] } }

abbrev by_meaning : VectorRetriever ℕ ℕ Bytes
by_meaning = record {
  store = λ v asked. inr all_hits;
  chunks = λ ids. inr two_chunks;
  embedder = λ ts. inr ((1 ∷ []) ∷ []);
  threshold = 20;
  metric = DistanceMetric.cosine;
}

abbrev kept_hits : List (VectorMatch ℕ)
kept_hits = hit (codes "a") 90 ∷ hit (codes "b") 50 ∷ []

retrieve_vector-take_example :
    retrieve_vector scores by_meaning ask_one (codes "q")
    ≡ inr (take (top_limit (some (pos 1))) (map (make_chunk_document scores kept_hits) two_chunks))
unfolding filter_matches_by_score threshold vector_options
retrieve_vector-take_example =
    retrieve_vector-take scores by_meaning ask_one (codes "q") 1 [] [] all_hits (hit (codes "a") 90)
      (hit (codes "b") 50 ∷ []) two_chunks refl refl refl refl

abbrev two_embedders : FallbackEmbedder ℕ
two_embedders = record {
  primary = λ ts. inl (codes "embedder: HTTP 402: no credit");
  primary_dimension = 3;
  fallback = some (λ ts. inl (codes "down"));
}

both_down : embed_with_fallback two_embedders (codes "a" ∷ []) ≡ inl (codes "down")
unfolding embed_with_fallback after_primary retry is_credit_error contains has_prefix
both_down = refl

embed_with_fallback-FailsBy_example :
    FailsBy
      (two_embedders.fallback)
      (codes "a" ∷ [])
      (two_embedders.primary (codes "a" ∷ []))
      (codes "down")
embed_with_fallback-FailsBy_example =
    embed_with_fallback-FailsBy two_embedders (codes "a" ∷ []) (codes "down") both_down
