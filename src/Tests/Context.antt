-- ===== src/Tests/Context.antt =====
-- A result whose parent chunk is in the store.
use fileprocessor.Base.{ℕ, ◌⊎◌, inr, some, List, [], ◌∷◌, Bytes, codes, pos}
use fileprocessor.Searcher.{Chunk, Document}
use fileprocessor.Router.Parents.{AllExtend, expand_parent_context, expand_parent_context-AllExtend}

abbrev result : Document ℕ
result = record {
  id = codes "a";
  content = codes "text";
  raw = [];
  file_id = codes "f1";
  file_name = [];
  doc_type = [];
  index = pos 0;
  parent_id = codes "p";
  score = 1;
}

abbrev parent : Chunk
parent = record {
  id = codes "p";
  text = codes "section";
  file_id = codes "f1";
  chunk_type = [];
  index = pos 0;
  parent_id = [];
  metadata = [];
}

abbrev parent_store : List Bytes → Bytes ⊎ List Chunk
parent_store ids = inr (parent ∷ [])

abbrev same_order : List Bytes → List Bytes
same_order ids = ids

expand_parent_context-AllExtend_example :
    AllExtend (result ∷ []) (expand_parent_context same_order (some parent_store) (result ∷ []))
expand_parent_context-AllExtend_example =
    expand_parent_context-AllExtend same_order (some parent_store) (result ∷ [])
