-- ===== src/RagChunker/Bounds.antt =====
-- The size of the chunks of documents that are not merged by pages.
use mathlib.Core.List.{map-append}
use fileprocessor.Base.{
  ℕ, ◌+◌, ◌≤◌, ◌≡◌, refl, ap, ◌⊎◌, inl, inr, false, ◌||◌, not, some, List, [], ◌∷◌, ◌++◌, map,
  arith, ltb, ◌==◌, if◌then◌else◌, if_ind, Bytes, codes, bytes_eq, ℤ, is_nonpos, exceeds, to_ℕ, pos,
  negsuc, length, length-append, All-append, All-map,
}
use fileprocessor.Cascade.{separators}
use fileprocessor.Cascade.Bounds.{Within, cascade-Within, separators-IsSeparator}
use fileprocessor.ForceSplit.Windows.{force_split_bounded}
use fileprocessor.Merging.Bounds.{max_chunk, size-le-max_chunk, merge_loop-Within}
use fileprocessor.MdSplitter.{MdSplitterChunk, SplitterError, MdSplitter, new_md_splitter, split_md}
use fileprocessor.RagChunker.{
  ChunkingConfig, FileDocument, DocumentChunk, ChunkMetadata, write_part, merge_parts,
  force_split_by_size, recursive_split, actual_size, actual_overlap, chunk_text, number_chunks,
  chunk_by_recursive_split, section_texts, section_metadata, chunk_sections, chunk_with_splitter,
  chunk_markdown_with_headers, header_config, is_header_type, chunk_by_type, chunk_document,
}

abbrev pub chunk_contents : List DocumentChunk → List Bytes
chunk_contents = map (λ c. c.content)

write_part_adds :
    (sep cur p : Bytes) → length (write_part sep cur p) ≤ length cur + length sep + length p
unfolding write_part
write_part_adds sep cur p =
    ground (arith, length-append cur p, length-append (cur ++ sep) p, length-append cur sep)

pub write_part_first : (sep p : Bytes) → write_part sep [] p ≡ p
unfolding write_part
write_part_first sep p = ground arith

merge_parts-Within :
    (parts : List Bytes) (sep : Bytes) (size overlap : ℕ)
    → length sep ≤ 2
    → Within size parts
    → Within (max_chunk size overlap) (merge_parts parts sep size overlap)
merge_parts-Within parts sep size overlap short h =
    unfold merge_parts in
    merge_loop-Within (write_part sep) sep (write_part_first sep) (write_part_adds sep) short size
      overlap parts [] h (ground arith)

recursive_split-Within :
    (text : Bytes) (size overlap : ℕ)
    → Within (max_chunk size overlap) (recursive_split text separators size overlap)
unfolding recursive_split force_split_by_size
recursive_split-Within text size overlap =
    cascade-Within _ _ size (max_chunk size overlap) (size-le-max_chunk size overlap)
      (λ parts sep. merge_parts-Within parts sep size overlap)
      (λ t.
        All-map _ _ (λ c h. omega (arith, h, size-le-max_chunk size overlap)) _
          (force_split_bounded t size overlap))
      separators separators-IsSeparator text

-- The bound on the chunks of a configuration.
abbrev pub chunk_limit : ChunkingConfig → ℕ
chunk_limit config = max_chunk (actual_size config) (actual_overlap config)

-- No piece of `chunkText` is longer than the chunk size in force, or, if there is an overlap, than
-- the chunk size, the overlap and four bytes more.
chunk_text_bounded :
    (text : Bytes) (config : ChunkingConfig) → Within (chunk_limit config) (chunk_text text config)
unfolding chunk_text
chunk_text_bounded text config =
    if_ind (Within (chunk_limit config)) (length text == 0 || not config.enabled) (λ _. tt)
      (λ _. recursive_split-Within text (actual_size config) (actual_overlap config))

pub contents-number_chunks :
    (meta : ChunkMetadata) (n : ℕ) (ts : List Bytes) → chunk_contents (number_chunks meta n ts) ≡ ts
unfolding number_chunks
contents-number_chunks meta n [] = refl
contents-number_chunks meta n (t ∷ ts) = ap (◌∷◌ t) (contents-number_chunks meta (n + 1) ts)

-- The texts of all sections, one after the other.
abbrev pub all_texts : ChunkingConfig → List MdSplitterChunk → List Bytes
all_texts config [] = []
all_texts config (md ∷ mds) = section_texts config md ++ all_texts config mds

pub contents-chunk_sections :
    (config : ChunkingConfig) (n : ℕ) (mds : List MdSplitterChunk)
    → chunk_contents (chunk_sections config n mds) ≡ all_texts config mds
unfolding chunk_sections
contents-chunk_sections config n [] = refl
contents-chunk_sections config n (md ∷ mds) = rw (
  map-append,
  contents-number_chunks (section_metadata config md) n (section_texts config md),
  contents-chunk_sections config (n + length (section_texts config md)) mds,
)

fits_size : (z : ℤ) (n : ℕ) → exceeds n z ≡ false → n ≤ (if is_nonpos z then 1000 else to_ℕ z)
fits_size (pos m) n h = ground arith
fits_size (negsuc m) n h = cc

fits_section :
    (config : ChunkingConfig) (n : ℕ) → exceeds n config.chunk_size ≡ false → n ≤ chunk_limit config
fits_section config n h =
    let small : n ≤ actual_size config = unfold actual_size in fits_size config.chunk_size n h in
    omega (arith, small, size-le-max_chunk (actual_size config) (actual_overlap config))

section_texts-Within :
    (config : ChunkingConfig) (md : MdSplitterChunk)
    → Within (chunk_limit config) (section_texts config md)
unfolding section_texts
section_texts-Within config md =
    if_ind (Within (chunk_limit config)) (exceeds (length md.content) config.chunk_size)
      (λ _. chunk_text_bounded md.content config)
      (λ small. (fits_section config (length md.content) small, tt))

all_texts-Within :
    (config : ChunkingConfig) (mds : List MdSplitterChunk)
    → Within (chunk_limit config) (all_texts config mds)
all_texts-Within config [] = tt
all_texts-Within config (md ∷ mds) =
    All-append _ (section_texts config md) _ (section_texts-Within config md)
      (all_texts-Within config mds)

by_recursive_split-Within :
    (content : Bytes) (config : ChunkingConfig)
    → Within (chunk_limit config) (chunk_contents (chunk_by_recursive_split content config))
unfolding chunk_by_recursive_split
by_recursive_split-Within content config =
    rw (contents-number_chunks _ 1 (chunk_text content config)) (chunk_text_bounded content config)

with_splitter-Within :
    (made : SplitterError ⊎ MdSplitter) (content : Bytes) (config : ChunkingConfig)
    → Within (chunk_limit config) (chunk_contents (chunk_with_splitter made content config))
unfolding chunk_with_splitter
with_splitter-Within (inl err) content config = by_recursive_split-Within content config
with_splitter-Within (inr splitter) content config =
    rw (contents-chunk_sections config 1 (split_md splitter content))
      (all_texts-Within config (split_md splitter content))

-- No chunk of a document without pages, or of another type than PDF, is longer than the chunk size
-- in force, or, if there is an overlap, than the chunk size, the overlap and four bytes more.
pub chunk_document_bounded :
    (doc : FileDocument) (config : ChunkingConfig)
    → (doc.pages ≡ []) ⊎ (bytes_eq doc.file_type (codes "pdf") ≡ false)
    → Within (chunk_limit config) (chunk_contents (chunk_document (some doc) config))
unfolding chunk_document chunk_by_type chunk_markdown_with_headers
chunk_document_bounded doc config no_pages =
    let P = λ (cs : List DocumentChunk). Within (chunk_limit config) (chunk_contents cs) in
    let by_headers =
      with_splitter-Within (new_md_splitter (some header_config)) doc.content config in
    if_ind P (not config.enabled) (λ _. tt)
      λ _.
        if_ind P (bytes_eq doc.file_type (codes "pdf"))
          (λ pdf.
            if_ind P (ltb 0 (length doc.pages)) (λ some_pages. absurd (ground arith))
              (λ _. by_headers))
          (λ _.
            if_ind P (is_header_type doc.file_type) (λ _. by_headers)
              (λ _. by_recursive_split-Within doc.content config))
