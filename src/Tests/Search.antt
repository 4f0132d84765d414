-- ===== src/Tests/Search.antt =====
-- A search over two small rankings, with natural numbers for the scores.
use Prim.Native.Nat.{◌/◌}
use mathlib.Core.List.Permᴰ
use fileprocessor.Base.{
  ℕ, ◌+◌, ◌≤◌, ◌≡◌, refl, inr, none, some, List, [], ◌∷◌, ltb, leb, Bytes, codes, pos, length, All,
  fail_as, and_then,
}
use fileprocessor.Text.{trim_space}
use fileprocessor.Searcher.Fusion.{Floats, VectorMatch, Fused, filter_matches_by_score, fuse_rrf}
use fileprocessor.Searcher.{
  Chunk, Document, SearchParamsSearcher, Searcher, actual_limit, candidate_limit, want, mentions,
  threshold, similarity_of, file_name, make_document, collect, hydrate, search_store, with_keywords,
  first_embedding, semantic_search,
}
use fileprocessor.Searcher.Ranking.{HasRrf, DistinctIds, fuse_rrf-DistinctIds, fuse_rrf-scores}
use fileprocessor.PgVectorStore.{no_metric}
use fileprocessor.Searcher.Limits.{IsWanted, semantic_search-IsWanted}

abbrev floats : Floats ℕ
floats = record {
  zero_score = 0;
  add = λ a b. a + b;
  divide = λ a b. a / b;
  of_int = λ n. n;
  at_least = λ a b. leb b a;
  greater = λ a b. ltb b a;
  vector_weight = 70_000;
  keyword_weight = 30_000;
  rrf_k = 60;
  vector_default = 15;
  keyword_default = 30;
}

abbrev match_of : Bytes → ℕ → VectorMatch ℕ
match_of id similarity = record { id = id; file_id = codes "f1"; similarity = similarity }

abbrev by_vector : List (VectorMatch ℕ)
by_vector = match_of (codes "a") 90 ∷ match_of (codes "b") 50 ∷ []

abbrev by_keyword : List (VectorMatch ℕ)
by_keyword = match_of (codes "b") 80 ∷ match_of (codes "c") 40 ∷ []

abbrev as_made : List (Fused ℕ) → List (Fused ℕ)
as_made xs = xs

fuse_rrf-DistinctIds_example : DistinctIds floats (fuse_rrf floats as_made by_vector by_keyword 3)
fuse_rrf-DistinctIds_example = fuse_rrf-DistinctIds floats as_made Permᴰ.refl by_vector by_keyword 3

fuse_rrf-scores_example :
    All (HasRrf floats by_vector by_keyword) (fuse_rrf floats as_made by_vector by_keyword 3)
fuse_rrf-scores_example = fuse_rrf-scores floats as_made Permᴰ.refl by_vector by_keyword 3

abbrev chunk_of : Bytes → Bytes → Chunk
chunk_of id file_id = record {
  id = id;
  text = codes "text";
  file_id = file_id;
  chunk_type = [];
  index = pos 0;
  parent_id = [];
  metadata = [];
}

abbrev searcher : Searcher ℕ ℕ Bytes
searcher = record {
  embed_texts = λ ts. inr ((1 ∷ []) ∷ []);
  store = some (λ v asked. inr by_vector);
  keyword = none;
  chunks_by_ids =
      λ ids. inr (chunk_of (codes "a") (codes "f1") ∷ chunk_of (codes "b") (codes "f2") ∷ []);
  file_name_of = λ file_id. inr (codes "notes.txt");
}

abbrev params : SearchParamsSearcher ℕ
params = record {
  query = codes "q";
  file_ids = codes "f1" ∷ [];
  limit = pos 5;
  metric = no_metric;
  vector_threshold = 0;
  keyword_threshold = 0;
}

-- The chunk of the other file is left out.
abbrev found : List (Document ℕ)
found =
    record {
      id = codes "a";
      content = codes "text";
      raw = [];
      file_id = codes "f1";
      file_name = codes "notes.txt";
      doc_type = [];
      index = pos 0;
      parent_id = [];
      score = 90;
    }
    ∷ []

search_found : semantic_search floats as_made searcher params ≡ inr found
unfolding semantic_search trim_space fileprocessor.Text.skip fileprocessor.Text.space_width
    fileprocessor.Text.space_width_back fileprocessor.Text.is_space_1 fileprocessor.Text.is_space_2
    fileprocessor.Text.is_space_3 fail_as and_then actual_limit candidate_limit want mentions
    threshold similarity_of file_name make_document collect hydrate search_store with_keywords
    first_embedding filter_matches_by_score
search_found = refl

semantic_search-IsWanted_example :
    (length found ≤ actual_limit (pos 5)) × All (IsWanted (codes "f1" ∷ [])) found
semantic_search-IsWanted_example =
    semantic_search-IsWanted floats as_made searcher params found search_found
