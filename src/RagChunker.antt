-- ===== src/RagChunker.antt =====
-- rag_chunker.go: the chunker of the ingestion path, which goes by the type of the document.
pub mod Bounds
pub mod Ink
pub mod Pages
pub mod Merge
use fileprocessor.Base.{
  ℕ, ◌+◌, ◌-◌, ◌⊎◌, inl, inr, Bool, false, ◌&&◌, ◌||◌, not, Option, none, some, List, [], ◌∷◌, ◌++◌,
  ltb, ◌==◌, if◌then◌else◌, Bytes, codes, bytes_eq, ℤ, is_nonpos, is_neg, exceeds, to_ℕ, length,
  drop,
}
use fileprocessor.Text.{decimal}
use fileprocessor.Cascade.{cascade, separators}
use fileprocessor.ForceSplit.{force_split}
use fileprocessor.Merging.{merge_loop}
use fileprocessor.MdSplitter.{
  StringMap, MdSplitterChunk, MdSplitter, MdSplitterConfig, SplitterError, lookup, new_md_splitter,
  split_md,
}

pub record ChunkingConfig : Type 0 where
  pub enabled : Bool
  pub chunk_size : ℤ
  pub overlap_size : ℤ

-- The fields of a `DocumentPage` that the chunker reads; `CharCount` is a length.
pub record DocumentPage : Type 0 where
  pub char_count : ℕ
  pub page_content : Bytes

-- The fields of a `FileDocument` that the chunker reads.
pub record FileDocument : Type 0 where
  pub content : Bytes
  pub file_type : Bytes
  pub pages : List DocumentPage

-- The three shapes of a chunk's metadata, with the entries that are not constant.
pub data ChunkMetadata : Type 0 where
  markdown_header : (h2 h3 : Bytes) (split_further : Bool) → ChunkMetadata
  pdf_pages : List ℕ → ChunkMetadata
  recursive_split_fallback : ChunkMetadata

pub record DocumentChunk : Type 0 where
  pub id : Bytes
  pub content : Bytes
  pub metadata : ChunkMetadata

unfoldable pub chunk_id : ℕ → Bytes
unfolding decimal
chunk_id n = codes "chunk-" ++ decimal n

-- What a round of `mergeParts` writes, behind its flush: a separator unless the builder is empty,
-- and the part.
unfoldable pub write_part : Bytes → Bytes → Bytes → Bytes
write_part sep cur p = (if ltb 0 (length cur) then cur ++ sep else cur) ++ p

unfoldable pub merge_parts : List Bytes → Bytes → ℕ → ℕ → List Bytes
merge_parts parts sep chunk_size overlap =
    merge_loop (write_part sep) sep chunk_size overlap parts []

unfoldable pub force_split_by_size : Bytes → ℕ → ℕ → List Bytes
force_split_by_size text chunk_size overlap = force_split text chunk_size overlap

unfoldable pub recursive_split : Bytes → List Bytes → ℕ → ℕ → List Bytes
recursive_split text seps chunk_size overlap =
    cascade (λ parts sep. merge_parts parts sep chunk_size overlap)
      (λ t. force_split_by_size t chunk_size overlap) chunk_size seps text

unfoldable pub actual_size : ChunkingConfig → ℕ
actual_size config = if is_nonpos config.chunk_size then 1000 else to_ℕ config.chunk_size

unfoldable pub actual_overlap : ChunkingConfig → ℕ
actual_overlap config = if is_neg config.overlap_size then 200 else to_ℕ config.overlap_size

unfoldable pub chunk_text : Bytes → ChunkingConfig → List Bytes
chunk_text text config =
    if length text == 0 || not config.enabled
    then []
    else recursive_split text separators (actual_size config) (actual_overlap config)

-- Chunks with consecutive numbers from `n` on.
unfoldable pub number_chunks : ChunkMetadata → ℕ → List Bytes → List DocumentChunk
number_chunks meta n [] = []
number_chunks meta n (t ∷ ts) =
    record { id = chunk_id n; content = t; metadata = meta } ∷ number_chunks meta (n + 1) ts

unfoldable pub chunk_by_recursive_split : Bytes → ChunkingConfig → List DocumentChunk
chunk_by_recursive_split content config =
    number_chunks recursive_split_fallback 1 (chunk_text content config)

-- `m[key]`, the empty string for a key that is not there.
unfoldable pub entry : Bytes → StringMap → Bytes
entry key m = elim (lookup key m) [ none ↦ [] | some v ↦ v ]

-- What one section of the markdown becomes.
unfoldable pub section_texts : ChunkingConfig → MdSplitterChunk → List Bytes
section_texts config md =
    if exceeds (length md.content) config.chunk_size
    then chunk_text md.content config
    else md.content ∷ []

unfoldable pub section_metadata : ChunkingConfig → MdSplitterChunk → ChunkMetadata
section_metadata config md =
    markdown_header (entry (codes "h2") md.metadata) (entry (codes "h3") md.metadata)
      (exceeds (length md.content) config.chunk_size)

-- The loop over the sections, from chunk number `n` on.
unfoldable pub chunk_sections : ChunkingConfig → ℕ → List MdSplitterChunk → List DocumentChunk
chunk_sections config n [] = []
chunk_sections config n (md ∷ mds) =
    let texts = section_texts config md in
    number_chunks (section_metadata config md) n texts
    ++ chunk_sections config (n + length texts) mds

abbrev pub header_config : MdSplitterConfig
header_config = record {
  headers = (codes "##", codes "h2") ∷ (codes "###", codes "h3") ∷ [];
  trim_headers = false;
}

unfoldable pub chunk_with_splitter :
    SplitterError ⊎ MdSplitter → Bytes → ChunkingConfig → List DocumentChunk
chunk_with_splitter (inl err) content config = chunk_by_recursive_split content config
chunk_with_splitter (inr splitter) content config =
    chunk_sections config 1 (split_md splitter content)

unfoldable pub chunk_markdown_with_headers : Bytes → ChunkingConfig → List DocumentChunk
chunk_markdown_with_headers content config =
    chunk_with_splitter (new_md_splitter (some header_config)) content config

unfoldable pub make_pdf_chunk : ℕ → Bytes → List ℕ → DocumentChunk
make_pdf_chunk id content pages = record {
  id = chunk_id id;
  content = content;
  metadata = pdf_pages pages;
}

abbrev pub blank_line : Bytes
blank_line = codes "\n\n"

-- What the builder holds after a flush in `chunkPDFByPages`: the end of the previous page.
unfoldable pub page_overlap : ChunkingConfig → ℕ → Bytes → Bytes
page_overlap config i prev =
    if not (is_nonpos config.overlap_size) && ltb 0 i
    then drop (length prev - to_ℕ config.overlap_size) prev ++ blank_line
    else []

-- The loop of `chunkPDFByPages` at page index `i`: the content of the page before, the number of
-- the next chunk, the builder and the page numbers in it.
unfoldable pub pdf_loop :
    ChunkingConfig → List DocumentPage → ℕ → Bytes → ℕ → Bytes → List ℕ → List DocumentChunk
pdf_loop config [] i prev id current current_pages =
    if ltb 0 (length current) then make_pdf_chunk id current current_pages ∷ [] else []
pdf_loop config (page ∷ pages) i prev id current current_pages =
    let text = page.page_content ++ blank_line in
    let flushed =
      make_pdf_chunk id current current_pages
      ∷ pdf_loop config pages (i + 1) page.page_content (id + 1)
          (page_overlap config i prev ++ text) ((i + 1) ∷ []) in
    let grown =
      pdf_loop config pages (i + 1) page.page_content id (current ++ text)
        (current_pages ++ (i + 1) ∷ []) in
    if ltb 0 (length current) && exceeds (length current + page.char_count) config.chunk_size
    then flushed
    else grown

unfoldable pub chunk_pdf_by_pages : List DocumentPage → ChunkingConfig → List DocumentChunk
chunk_pdf_by_pages pages config = pdf_loop config pages 0 [] 1 [] []

unfoldable pub is_header_type : Bytes → Bool
is_header_type t =
    bytes_eq t (codes "docx")
    || bytes_eq t (codes "pptx")
    || bytes_eq t (codes "xlsx")
    || bytes_eq t (codes "txt")
    || bytes_eq t (codes "markdown")

unfoldable pub chunk_by_type : FileDocument → ChunkingConfig → List DocumentChunk
chunk_by_type doc config =
    if bytes_eq doc.file_type (codes "pdf")
    then (if ltb 0 (length doc.pages)
        then chunk_pdf_by_pages doc.pages config
        else chunk_markdown_with_headers doc.content config)
    else if is_header_type doc.file_type
    then chunk_markdown_with_headers doc.content config
    else chunk_by_recursive_split doc.content config

-- `RAGChunker.ChunkDocument`; `none` is the nil document.
unfoldable pub chunk_document : Option FileDocument → ChunkingConfig → List DocumentChunk
chunk_document none config = []
chunk_document (some doc) config = if not config.enabled then [] else chunk_by_type doc config
