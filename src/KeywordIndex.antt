-- ===== src/KeywordIndex.antt =====
-- sqlite_keyword_index.go: the index of keywords on SQLite, and its queries. The database is a
-- parameter, which the index gives texts and arguments.
pub mod Refresh
pub mod Atomic
use fileprocessor.Base.{
  ℕ, zero, suc, ◌≡◌, refl, ◌⊎◌, inl, inr, Bool, true, false, ◌&&◌, ◌||◌, Option, none, some, List,
  [], ◌∷◌, ◌++◌, map, reverse, ltb, ◌==◌, if◌then◌else◌, Bytes, codes, ℤ, length, fail_as, and_then,
}
use fileprocessor.Text.{space_width, trim_space, join}
use fileprocessor.PgVectorStore.{Rows}
use fileprocessor.PgVectorStore.Queries.{or_ten}
use fileprocessor.Searcher.Fusion.{VectorMatch}

-- Puts a word in front of others, unless it is empty.
unfoldable add_word : Bytes → List Bytes → List Bytes
add_word [] words = words
add_word (c ∷ word) words = (c ∷ word) ∷ words

-- `strings.Fields(s)`: the word so far has its last byte in front; the number counts the bytes of a
-- white space character that are still to be passed over.
unfoldable fields_from : ℕ → Bytes → Bytes → List Bytes
unfolding add_word
fields_from k word [] = add_word (reverse word) []
fields_from (suc k) word (c ∷ s) = fields_from k word s
fields_from zero word (c ∷ s) = elim (space_width (c ∷ s)) [
  | zero ↦ fields_from 0 (c ∷ word) s
  | suc k ↦ add_word (reverse word) (fields_from k [] s)
]

unfoldable fields : Bytes → List Bytes
unfolding fields_from space_width
fields s = fields_from 0 [] s

-- The double quote.
abbrev quote_mark : ℕ
quote_mark = 34

-- `strings.ReplaceAll`, of the double quote by two.
unfoldable double_quotes : Bytes → Bytes
double_quotes [] = []
double_quotes (c ∷ s) =
    let rest = double_quotes s in if c == quote_mark then c ∷ c ∷ rest else c ∷ rest

unfoldable quote_word : Bytes → Bytes
unfolding double_quotes
quote_word word = quote_mark ∷ (double_quotes word ++ quote_mark ∷ [])

-- The loop over the words.
unfoldable quote_words : List Bytes → List Bytes
unfolding quote_word
quote_words [] = []
quote_words (word ∷ words) =
    let rest = quote_words words in
    let trimmed = trim_space word in if length trimmed == 0 then rest else quote_word trimmed ∷ rest

-- `a < b` on Go strings.
unfoldable bytes_less : Bytes → Bytes → Bool
bytes_less s [] = false
bytes_less [] (b ∷ t) = true
bytes_less (a ∷ s) (b ∷ t) = ltb a b || a == b && bytes_less s t

-- `sort.Strings`.
unfoldable insert_string : Bytes → List Bytes → List Bytes
insert_string s [] = s ∷ []
insert_string s (t ∷ ts) =
    let rest = insert_string s ts in if bytes_less t s then t ∷ rest else s ∷ t ∷ ts

unfoldable sort_strings : List Bytes → List Bytes
unfolding insert_string bytes_less
sort_strings [] = []
sort_strings (s ∷ ts) = insert_string s (sort_strings ts)

-- `sqliteFTSQuery`.
unfoldable sqlite_fts_query : Bytes → Bytes
unfolding fields quote_words sort_strings
sqlite_fts_query query =
    join (sort_strings (quote_words (fields (trim_space query)))) (codes " OR ")

pub data KeywordArgument : Type 0 where
  text_value : Bytes → KeywordArgument
  int_value : ℤ → KeywordArgument

-- A chunk of the projection.
pub record ChunkRow : Type 0 where
  pub chunk_id : Bytes
  pub file_id : Bytes
  pub tenant_id : Bytes
  pub content : Bytes

-- The packages `database/sql` and `os` over a state, and the pool of PostgreSQL. `X` is a handle of a
-- transaction. `negate` is `-score` on floating-point numbers.
pub record KeywordDatabase (W E X F : Type 0) : Type 0 where
  pub mkdir_all : Bytes → W → Option E × W
  pub open_database : Bytes → W → Option E × W
  pub close : W → Option E × W
  pub exec : Bytes → W → Option E × W
  pub begin : W → (E ⊎ X) × W
  pub tx_exec : X → Bytes → W → Option E × W
  pub prepare : X → Bytes → W → Option E × W
  pub insert_row : X → ChunkRow → W → Option E × W
  pub commit : X → W → Option E × W
  pub rollback : X → W → W
  pub query_matches : Bytes → List KeywordArgument → W → E ⊎ Rows E (Bytes × (Bytes × F))
  pub query_chunks : Bytes → W → E ⊎ Rows E ChunkRow
  pub negate : F → F

pub data KeywordError (E : Type 0) : Type 0 where
  path_required : KeywordError E
  create_directory_failed : E → KeywordError E
  open_failed : E → KeywordError E
  initialize_failed : E → KeywordError E
  pool_is_nil : KeywordError E
  read_chunks_failed : E → KeywordError E
  begin_failed : E → KeywordError E
  clear_failed : E → KeywordError E
  prepare_failed : E → KeywordError E
  insert_failed : Bytes → E → KeywordError E
  iterate_failed : E → KeywordError E
  commit_failed : E → KeywordError E
  search_failed : E → KeywordError E

unfoldable placeholders : List Bytes → List Bytes
placeholders [] = []
placeholders (id ∷ ids) = codes "?" ∷ placeholders ids

-- The conditions of a search within files.
unfoldable where_sql : List Bytes → Bytes
unfolding placeholders
where_sql file_ids =
    if length file_ids == 0
    then codes "chunks_fts MATCH ?"
    else codes "chunks_fts MATCH ? AND file_id IN ("
      ++ (join (placeholders file_ids) (codes ",") ++ codes ")")

unfoldable search_statement : List Bytes → Bytes
unfolding where_sql
search_statement file_ids =
    codes "SELECT chunk_id, file_id, bm25(chunks_fts) FROM chunks_fts WHERE "
    ++ (where_sql file_ids ++ codes " ORDER BY bm25(chunks_fts) ASC, rowid LIMIT ?")

unfoldable file_arguments : List Bytes → ℤ → List KeywordArgument
file_arguments [] limit = int_value limit ∷ []
file_arguments (id ∷ ids) limit = text_value id ∷ file_arguments ids limit

module _ {W E X F : Type 0} (db : KeywordDatabase W E X F) where
  unfoldable pub keyword_match : Bytes × (Bytes × F) → VectorMatch F
  keyword_match (id, (file_id, score)) = record {
    id = id;
    file_id = file_id;
    similarity = db.negate score;
  }

  -- The matches of the rows, unless an error ended them.
  unfoldable pub keyword_matches :
      Rows E (Bytes × (Bytes × F)) → KeywordError E ⊎ List (VectorMatch F)
  keyword_matches (rows, none) = inr (map keyword_match rows)
  keyword_matches (rows, some err) = inl (iterate_failed err)

  -- `KeywordSearch`, of a limit and the files.
  unfoldable keyword_search : Bytes → ℤ → List Bytes → W → KeywordError E ⊎ List (VectorMatch F)
  keyword_search query limit file_ids w =
      let fts_query = sqlite_fts_query query in
      if length fts_query == 0
      then inr []
      else and_then
          (fail_as search_failed (
            db.query_matches (search_statement file_ids)
              (text_value fts_query ∷ file_arguments file_ids (or_ten limit)) w))
          keyword_matches

fts : sqlite_fts_query (codes " say \"hi\"  ") ≡ codes "\"\"\"hi\"\"\" OR \"say\""
unfolding sqlite_fts_query
fts = unfold trim_space join in refl
