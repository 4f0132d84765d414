-- ===== src/Router.antt =====
-- eino_retriever_router.go: the vector retriever and the keyword retriever, and the hydration of
-- matches that they share. `GetCommonOptions` and `GetImplSpecificOptions` of the eino package are
-- not part of the code: a retriever takes what they do with the options of a call.
pub mod Hydration
pub mod Parents
pub mod Hybrid
use fileprocessor.Base.{
  ℕ, ◌+◌, ◌⊎◌, inl, inr, Bool, false, Option, none, some, List, [], ◌∷◌, map, leb, if◌then◌else◌,
  Bytes, ℤ, is_nonpos, to_ℕ, pos,
}
use fileprocessor.PgVectorStore.{DistanceMetric, no_metric}
use fileprocessor.PgVectorStore.Queries.{SearchParams}
use fileprocessor.Searcher.Fusion.{Floats, VectorMatch, filter_matches_by_score}
use fileprocessor.Searcher.{Chunk, Document, candidate_limit, threshold, similarity_of}

pub record HybridOptions (F : Type 0) : Type 0 where
  pub file_ids : List Bytes
  pub vector_threshold : F
  pub keyword_threshold : F
  pub metric : DistanceMetric
  pub expand_parent : Bool
  pub tenant_id : Bytes

pub data RetrieveError (E : Type 0) : Type 0 where
  embed_error : E → RetrieveError E
  empty_vector : RetrieveError E
  search_error : E → RetrieveError E
  hydrate_error : E → RetrieveError E

-- What the options of a call do: `TopK` of the common options, none where it is nil, and the change
-- that `GetImplSpecificOptions` makes to the options it is given.
pub record CallOptions (F : Type 0) : Type 0 where
  pub top_k : Option ℤ
  pub apply : HybridOptions F → HybridOptions F

-- `HybridOptions{}`.
abbrev pub no_options : {F : Type 0} → Floats F → HybridOptions F
no_options floats = record {
  file_ids = [];
  vector_threshold = floats.zero_score;
  keyword_threshold = floats.zero_score;
  metric = no_metric;
  expand_parent = false;
  tenant_id = [];
}

-- The number of documents asked for.
unfoldable pub top_limit : Option ℤ → ℕ
top_limit none = 30
top_limit (some k) = if is_nonpos k then 30 else to_ℕ k

unfoldable pub make_chunk_document :
    {F : Type 0} → Floats F → List (VectorMatch F) → Chunk → Document F
make_chunk_document floats matches ch = record {
  id = ch.id;
  content = ch.text;
  raw = ch.metadata;
  file_id = ch.file_id;
  file_name = [];
  doc_type = ch.chunk_type;
  index = ch.index;
  parent_id = ch.parent_id;
  score = similarity_of floats.zero_score ch.id matches;
}

-- The loop over the chunks with `count` results so far: the results from here on.
unfoldable pub hydrate_loop :
    {F : Type 0} → Floats F → List (VectorMatch F) → ℕ → ℕ → List Chunk → List (Document F)
hydrate_loop floats matches limit count [] = []
hydrate_loop floats matches limit count (ch ∷ chs) =
    let rest = hydrate_loop floats matches limit (count + 1) chs in
    make_chunk_document floats matches ch ∷ (if leb limit (count + 1) then [] else rest)

-- What the stores' answer for the chunks becomes.
unfoldable pub hydrate_answer :
    {F E : Type 0}
    → Floats F
    → List (VectorMatch F)
    → ℕ
    → E ⊎ List Chunk
    → RetrieveError E ⊎ List (Document F)
hydrate_answer floats matches limit (inl e) = inl (hydrate_error e)
hydrate_answer floats matches limit (inr chs) = inr (hydrate_loop floats matches limit 0 chs)

-- `hydrateChunks`; the first argument is `GetChunksByIDs` of the chunk store.
unfoldable pub hydrate_chunks :
    {F E : Type 0}
    → Floats F
    → (List Bytes → E ⊎ List Chunk)
    → List (VectorMatch F)
    → ℕ
    → RetrieveError E ⊎ List (Document F)
hydrate_chunks floats chunks_by_ids [] limit = inr []
hydrate_chunks floats chunks_by_ids (m ∷ ms) limit =
    hydrate_answer floats (m ∷ ms) limit
      (chunks_by_ids (map (λ (x : VectorMatch _). x.id) (m ∷ ms)))

-- What the answer of a search becomes: the matches of a sufficient score, hydrated.
unfoldable pub search_answer :
    {F E : Type 0}
    → Floats F
    → (List Bytes → E ⊎ List Chunk)
    → F
    → ℕ
    → E ⊎ List (VectorMatch F)
    → RetrieveError E ⊎ List (Document F)
search_answer floats chunks_by_ids least limit (inl e) = inl (search_error e)
search_answer floats chunks_by_ids least limit (inr found) =
    hydrate_chunks floats chunks_by_ids (filter_matches_by_score floats found least) limit

pub record VectorRetriever (F V E : Type 0) : Type 0 where
  pub store : List V → SearchParams → E ⊎ List (VectorMatch F)
  pub chunks : List Bytes → E ⊎ List Chunk
  pub embedder : List Bytes → E ⊎ List (List V)
  pub threshold : F
  pub metric : DistanceMetric

pub record KeywordRetriever (F E : Type 0) : Type 0 where
  pub keyword : Bytes → SearchParams → E ⊎ List (VectorMatch F)
  pub chunks : List Bytes → E ⊎ List Chunk
  pub threshold : F

-- The options of a call on the vector retriever, and on the keyword retriever.
unfoldable pub vector_options :
    {F V E : Type 0} → Floats F → VectorRetriever F V E → CallOptions F → HybridOptions F
vector_options floats r given =
    given.apply (record (no_options floats) { vector_threshold = r.threshold; metric = r.metric })

unfoldable pub keyword_options :
    {F E : Type 0} → Floats F → KeywordRetriever F E → CallOptions F → HybridOptions F
keyword_options floats r given =
    given.apply (record (no_options floats) { keyword_threshold = r.threshold })

unfoldable pub vector_params : {F : Type 0} → Option ℤ → HybridOptions F → SearchParams
vector_params top_k io = record {
  limit = pos (candidate_limit (top_limit top_k));
  metric = io.metric;
  file_ids = io.file_ids;
  tenant_id = io.tenant_id;
}

unfoldable pub keyword_params : {F : Type 0} → Option ℤ → HybridOptions F → SearchParams
keyword_params top_k io = record {
  limit = pos (candidate_limit (top_limit top_k));
  metric = no_metric;
  file_ids = io.file_ids;
  tenant_id = io.tenant_id;
}

-- What the answer of the embedder becomes.
unfoldable pub vector_answer :
    {F V E : Type 0}
    → Floats F
    → VectorRetriever F V E
    → Option ℤ
    → HybridOptions F
    → E ⊎ List (List V)
    → RetrieveError E ⊎ List (Document F)
vector_answer floats r top_k io (inl e) = inl (embed_error e)
vector_answer floats r top_k io (inr []) = inl empty_vector
vector_answer floats r top_k io (inr ([] ∷ vs)) = inl empty_vector
vector_answer floats r top_k io (inr ((x ∷ v) ∷ vs)) =
    search_answer floats r.chunks (threshold floats io.vector_threshold floats.vector_default)
      (top_limit top_k) (r.store (x ∷ v) (vector_params top_k io))

-- `vectorRetriever.Retrieve`.
unfoldable pub retrieve_vector :
    {F V E : Type 0}
    → Floats F
    → VectorRetriever F V E
    → CallOptions F
    → Bytes
    → RetrieveError E ⊎ List (Document F)
retrieve_vector floats r given query =
    vector_answer floats r given.top_k (vector_options floats r given) (r.embedder (query ∷ []))

-- `keywordRetriever.Retrieve`.
unfoldable pub retrieve_keyword :
    {F E : Type 0}
    → Floats F
    → KeywordRetriever F E
    → CallOptions F
    → Bytes
    → RetrieveError E ⊎ List (Document F)
retrieve_keyword floats r given query =
    let io = keyword_options floats r given in
    search_answer floats r.chunks (threshold floats io.keyword_threshold floats.keyword_default)
      (top_limit given.top_k) (r.keyword query (keyword_params given.top_k io))
