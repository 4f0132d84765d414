-- ===== src/Searcher.antt =====
-- rag_searcher.go: hybrid search. Floating-point numbers are a parameter.
pub mod Fusion
pub mod Scores
pub mod Ranking
pub mod Limits
use fileprocessor.Base.{
  ℕ, ◌-◌, ◌*◌, ◌⊎◌, inl, inr, Bool, false, ◌||◌, not, Option, none, some, List, [], ◌∷◌, map, ltb,
  leb, ◌==◌, if◌then◌else◌, Bytes, bytes_eq, ℤ, is_nonpos, to_ℕ, pos, length, fail_as, and_then,
}
use fileprocessor.Text.{trim_space}
use fileprocessor.PgVectorStore.{DistanceMetric, no_metric}
use fileprocessor.PgVectorStore.Queries.{SearchParams}
use fileprocessor.Searcher.Fusion.{Floats, VectorMatch, Fused, fuse_rrf, filter_matches_by_score}

-- The fields of a `Chunk` of the store.
pub record Chunk : Type 0 where
  pub id : Bytes
  pub text : Bytes
  pub file_id : Bytes
  pub chunk_type : Bytes
  pub index : ℤ
  pub parent_id : Bytes
  pub metadata : Bytes

-- A `schema.Document` with the entries of its metadata. The code sets the entry of a text only if
-- the text is not empty, so that the empty text stands for an entry that is not there.
pub record Document (F : Type 0) : Type 0 where
  pub id : Bytes
  pub content : Bytes
  pub raw : Bytes
  pub file_id : Bytes
  pub file_name : Bytes
  pub doc_type : Bytes
  pub index : ℤ
  pub parent_id : Bytes
  pub score : F

pub record SearchParamsSearcher (F : Type 0) : Type 0 where
  pub query : Bytes
  pub file_ids : List Bytes
  pub limit : ℤ
  pub metric : DistanceMetric
  pub vector_threshold : F
  pub keyword_threshold : F

-- The errors, with those of the parts that are called.
pub data SearchError (E : Type 0) : Type 0 where
  empty_query : SearchError E
  embed_failed : E → SearchError E
  empty_embedding : SearchError E
  no_store : SearchError E
  search_failed : E → SearchError E
  keyword_failed : E → SearchError E
  hydrate_failed : E → SearchError E

-- What the searcher is wired with: `store` and `keyword` may be nil.
pub record Searcher (F V E : Type 0) : Type 0 where
  pub embed_texts : List Bytes → E ⊎ List (List V)
  pub store : Option (List V → SearchParams → E ⊎ List (VectorMatch F))
  pub keyword : Option (Bytes → SearchParams → E ⊎ List (VectorMatch F))
  pub chunks_by_ids : List Bytes → E ⊎ List Chunk
  pub file_name_of : Bytes → E ⊎ Bytes

unfoldable pub actual_limit : ℤ → ℕ
actual_limit limit = if is_nonpos limit then 30 else to_ℕ limit

unfoldable pub candidate_limit : ℕ → ℕ
candidate_limit limit = if ltb (limit * 5) 50 then 50 else limit * 5

-- `searchParams` of the function.
unfoldable pub search_params : {F : Type 0} → SearchParamsSearcher F → SearchParams
search_params p = record {
  limit = pos (candidate_limit (actual_limit p.limit));
  metric = p.metric;
  file_ids = p.file_ids;
  tenant_id = [];
}

-- `want` of the function.
unfoldable pub mentions : Bytes → List Bytes → Bool
mentions file_id [] = false
mentions file_id (f ∷ fs) = bytes_eq f file_id || mentions file_id fs

unfoldable pub want : List Bytes → Bytes → Bool
want file_ids file_id = length file_ids == 0 || mentions file_id file_ids

-- `embeddings[0]`, if it is there and not empty.
unfoldable pub first_embedding : {E V : Type 0} → List (List V) → SearchError E ⊎ List V
first_embedding [] = inl empty_embedding
first_embedding ([] ∷ vs) = inl empty_embedding
first_embedding ((x ∷ v) ∷ vs) = inr (x ∷ v)

-- `sim[id]`: the similarity of the last match with the id, `similarity` if there is none.
unfoldable pub similarity_of : {F : Type 0} → F → Bytes → List (VectorMatch F) → F
similarity_of similarity id [] = similarity
similarity_of similarity id (m ∷ ms) =
    similarity_of (if bytes_eq m.id id then m.similarity else similarity) id ms

-- The default for a threshold that is not positive.
unfoldable pub threshold : {F : Type 0} → Floats F → F → F → F
threshold floats given default = if floats.at_least floats.zero_score given then default else given

module _ {F V E : Type 0} (floats : Floats F) where
  unfoldable pub file_name : Searcher F V E → Bytes → Bytes
  file_name s file_id =
      if length file_id == 0
      then []
      else elim (s.file_name_of file_id) [ inl e ↦ [] | inr name ↦ name ]

  unfoldable pub make_document : Searcher F V E → List (VectorMatch F) → Chunk → Document F
  make_document s matches ch = record {
    id = ch.id;
    content = ch.text;
    raw = ch.metadata;
    file_id = ch.file_id;
    file_name = file_name s ch.file_id;
    doc_type = ch.chunk_type;
    index = ch.index;
    parent_id = ch.parent_id;
    score = similarity_of floats.zero_score ch.id matches;
  }

  -- The loop over the chunks; `room` is the number of results still to come, positive at the start.
  unfoldable pub collect :
      Searcher F V E → List Bytes → List (VectorMatch F) → ℕ → List Chunk → List (Document F)
  collect s file_ids matches room [] = []
  collect s file_ids matches room (ch ∷ chs) =
      let skipped = collect s file_ids matches room chs in
      let taken = collect s file_ids matches (room - 1) chs in
      if not (want file_ids ch.file_id)
      then skipped
      else make_document s matches ch ∷ (if leb room 1 then [] else taken)

  -- The keyword search and the fusion, if there is a keyword searcher.
  unfoldable pub with_keywords :
      (List (Fused F) → List (Fused F))
      → Searcher F V E
      → SearchParamsSearcher F
      → List (VectorMatch F)
      → SearchError E ⊎ List (VectorMatch F)
  with_keywords iteration s p matches = elim s.keyword [
    | none ↦ inr matches
    | some search ↦ and_then (fail_as keyword_failed (search p.query (search_params p))) (λ found.
        inr (
          fuse_rrf floats iteration matches
            (filter_matches_by_score floats found
              (threshold floats p.keyword_threshold floats.keyword_default))
            (actual_limit p.limit * 2)))
  ]

  unfoldable pub hydrate :
      Searcher F V E
      → SearchParamsSearcher F
      → List (VectorMatch F)
      → SearchError E ⊎ List (Document F)
  hydrate s p [] = inr []
  hydrate s p (m ∷ ms) =
      and_then
        (fail_as hydrate_failed (s.chunks_by_ids (map (λ (x : VectorMatch F). x.id) (m ∷ ms))))
        (λ chs. inr (collect s p.file_ids (m ∷ ms) (actual_limit p.limit) chs))

  unfoldable pub search_store :
      Searcher F V E → SearchParamsSearcher F → List V → SearchError E ⊎ List (VectorMatch F)
  search_store s p v = elim s.store [
    | none ↦ inl no_store
    | some search ↦ and_then (fail_as search_failed (search v (search_params p))) (λ found. inr (
        filter_matches_by_score floats found
          (threshold floats p.vector_threshold floats.vector_default)))
  ]

  unfoldable pub semantic_search :
      (List (Fused F) → List (Fused F))
      → Searcher F V E
      → SearchParamsSearcher F
      → SearchError E ⊎ List (Document F)
  semantic_search iteration s p =
      if length (trim_space p.query) == 0
      then inl empty_query
      else and_then (fail_as embed_failed (s.embed_texts (p.query ∷ []))) (λ vs.
        and_then (first_embedding vs) (λ v.
          and_then (search_store s p v) (λ matches.
            and_then (with_keywords iteration s p matches) (λ fused. hydrate s p fused))))

  -- `SemanticSearchMultipleFiles`.
  unfoldable semantic_search_multiple_files :
      (List (Fused F) → List (Fused F))
      → Searcher F V E
      → Bytes
      → List Bytes
      → ℤ
      → SearchError E ⊎ List (Document F)
  semantic_search_multiple_files iteration s query file_ids limit =
      semantic_search iteration s (record {
        query = query;
        file_ids = file_ids;
        limit = limit;
        metric = no_metric;
        vector_threshold = floats.zero_score;
        keyword_threshold = floats.zero_score;
      })
