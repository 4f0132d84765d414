-- ===== src/Router/Hydration.antt =====
-- What hydration returns.
use fileprocessor.Base.{
  ℕ, zero, suc, ◌+◌, ◌<◌, ◌≡◌, refl, ap, ◌⊎◌, inr, Option, none, some, List, [], ◌∷◌, map, arith,
  leb, if_ind, Bytes, ℤ, pos, negsuc, take,
}
use fileprocessor.Searcher.Fusion.{Floats, VectorMatch, filter_matches_by_score}
use fileprocessor.Searcher.{Chunk, Document, threshold}
use fileprocessor.Router.{
  KeywordRetriever, VectorRetriever, CallOptions, vector_options, keyword_options, vector_params,
  keyword_params, top_limit, make_chunk_document, hydrate_loop, hydrate_answer, hydrate_chunks,
  search_answer, vector_answer, retrieve_vector, retrieve_keyword,
}

module _ {F : Type 0} (floats : Floats F) (matches : List (VectorMatch F)) where
  loop-take :
      (limit count room : ℕ) (chs : List Chunk)
      → count + suc room ≡ limit
      → hydrate_loop floats matches limit count chs
        ≡ take (suc room) (map (make_chunk_document floats matches) chs)
  unfolding hydrate_loop
  loop-take limit count room [] e = refl
  loop-take limit count zero (ch ∷ chs) e =
      if_ind
        (λ (ds : List (Document F)).
          make_chunk_document floats matches ch ∷ ds ≡ make_chunk_document floats matches ch ∷ [])
        (leb limit (count + 1)) (λ _. refl) (λ more. absurd (ground (arith, more, e)))
  loop-take limit count (suc room) (ch ∷ chs) e =
      if_ind
        (λ (ds : List (Document F)).
          make_chunk_document floats matches ch ∷ ds
          ≡ make_chunk_document floats matches ch
            ∷ take (suc room) (map (make_chunk_document floats matches) chs))
        (leb limit (count + 1)) (λ full. absurd (ground (arith, full, e)))
        (λ _.
          ap (◌∷◌ (make_chunk_document floats matches ch))
            (loop-take limit (count + 1) room chs (omega (arith, e))))

  -- For a positive limit the loop gives the documents of the first `limit` chunks, in the order of
  -- the chunks.
  hydrate_loop-take :
      (limit : ℕ) (chs : List Chunk)
      → 0 < limit
      → hydrate_loop floats matches limit 0 chs
        ≡ take limit (map (make_chunk_document floats matches) chs)
  hydrate_loop-take zero chs h = absurd (omega (arith, h))
  hydrate_loop-take (suc room) chs h = loop-take (suc room) 0 room chs (omega arith)

top_limit_pos : (k : Option ℤ) → 0 < top_limit k
unfolding top_limit
top_limit_pos none = omega arith
top_limit_pos (some (pos n)) = ground arith
top_limit_pos (some (negsuc n)) = ground arith

module _ {F E : Type 0} (floats : Floats F) where
  search_answer-take :
      (chunks_by_ids : List Bytes → E ⊎ List Chunk) (least : F) (k : Option ℤ)
      (found : List (VectorMatch F)) (m : VectorMatch F) (ms : List (VectorMatch F))
      (chs : List Chunk)
      → filter_matches_by_score floats found least ≡ m ∷ ms
      → chunks_by_ids (map (λ (x : VectorMatch F). x.id) (m ∷ ms)) ≡ inr chs
      → search_answer floats chunks_by_ids least (top_limit k) (inr found)
        ≡ inr (take (top_limit k) (map (make_chunk_document floats (m ∷ ms)) chs))
  unfolding search_answer hydrate_chunks hydrate_answer
  search_answer-take chunks_by_ids least k found m ms chs kept there =
      rw (kept, there)
        (ap inr (hydrate_loop-take floats (m ∷ ms) (top_limit k) chs (top_limit_pos k)))

  -- A keyword search that finds matches of a sufficient score, whose chunks the store gives, returns
  -- the documents of the first of these chunks, as many as were asked for, in the order in which
  -- the store gives them.
  retrieve_keyword-take :
      (r : KeywordRetriever F E) (given : CallOptions F) (query : Bytes)
      (found : List (VectorMatch F)) (m : VectorMatch F) (ms : List (VectorMatch F))
      (chs : List Chunk)
      → r.keyword query (keyword_params given.top_k (keyword_options floats r given)) ≡ inr found
      → filter_matches_by_score floats found (
          threshold floats
            (keyword_options floats r given).keyword_threshold
            floats.keyword_default)
        ≡ m ∷ ms
      → r.chunks (map (λ (x : VectorMatch F). x.id) (m ∷ ms)) ≡ inr chs
      → retrieve_keyword floats r given query
        ≡ inr (take (top_limit given.top_k) (map (make_chunk_document floats (m ∷ ms)) chs))
  unfolding retrieve_keyword
  retrieve_keyword-take r given query found m ms chs answered kept there = rw answered (
      search_answer-take r.chunks
        (threshold floats (keyword_options floats r given).keyword_threshold floats.keyword_default)
        given.top_k found m ms chs kept there)

  -- A vector search that gets an embedding and finds matches of a sufficient score, whose chunks the
  -- store gives, returns the documents of the first of these chunks, as many as were asked for, in
  -- the order in which the store gives them.
  pub retrieve_vector-take :
      {V : Type 0} (r : VectorRetriever F V E) (given : CallOptions F) (query : Bytes) (x : V)
      (v : List V) (vs : List (List V)) (found : List (VectorMatch F)) (m : VectorMatch F)
      (ms : List (VectorMatch F)) (chs : List Chunk)
      → r.embedder (query ∷ []) ≡ inr ((x ∷ v) ∷ vs)
      → r.store (x ∷ v) (vector_params given.top_k (vector_options floats r given)) ≡ inr found
      → filter_matches_by_score floats found
          (threshold floats (vector_options floats r given).vector_threshold floats.vector_default)
        ≡ m ∷ ms
      → r.chunks (map (λ (n : VectorMatch F). n.id) (m ∷ ms)) ≡ inr chs
      → retrieve_vector floats r given query
        ≡ inr (take (top_limit given.top_k) (map (make_chunk_document floats (m ∷ ms)) chs))
  unfolding retrieve_vector vector_answer
  retrieve_vector-take r given query x v vs found m ms chs embedded answered kept there =
      rw (embedded, answered)
        (search_answer-take r.chunks
          (threshold floats (vector_options floats r given).vector_threshold floats.vector_default)
          given.top_k found m ms chs kept there)
