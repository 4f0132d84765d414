-- ===== src/RagChunker/Ink.antt =====
-- The content of the chunks without overlap.
use fileprocessor.Base.{
  ℕ, ◌<◌, ◌≡◌, refl, sym, ap, ◌∙◌, ◌⊎◌, inl, true, false, ◌||◌, not, some, List, [], ◌∷◌, ◌++◌,
  append-nil, arith, ltb, ◌==◌, if◌then◌else◌, if_ind, Bytes, codes, bytes_eq, ℤ, is_nonpos,
  exceeds, to_ℕ, pos, negsuc, length, flatten,
}
use fileprocessor.Text.Ink.{ink, ink_nil, ink-append, ink-join}
use fileprocessor.Cascade.{separators}
use fileprocessor.Cascade.Bounds.{separators-IsSeparator}
use fileprocessor.Cascade.Ink.{ink_all, ink_all-append, ink-flatten, cascade-ink}
use fileprocessor.ForceSplit.{force_split}
use fileprocessor.ForceSplit.Windows.{flatten-force_split}
use fileprocessor.Merging.Ink.{merge_loop-ink}
use fileprocessor.MdSplitter.{MdSplitter, MdSplitterChunk, new_md_splitter, split_md, newline}
use fileprocessor.MdSplitter.Lines.{contents, join-split_md}
use fileprocessor.RagChunker.{
  ChunkingConfig, FileDocument, DocumentChunk, write_part, merge_parts, force_split_by_size,
  recursive_split, actual_size, actual_overlap, chunk_text, chunk_by_recursive_split, section_texts,
  chunk_with_splitter, chunk_markdown_with_headers, header_config, is_header_type, chunk_by_type,
  chunk_document,
}
use fileprocessor.RagChunker.Bounds.{
  write_part_first, chunk_contents, all_texts, contents-number_chunks, contents-chunk_sections,
}

write_part-ink : (sep cur p : Bytes) → ink sep ≡ [] → ink (write_part sep cur p) ≡ ink cur ++ ink p
unfolding write_part
write_part-ink sep cur p blank =
    if_ind (λ (t : Bytes). ink (t ++ p) ≡ ink cur ++ ink p) (ltb 0 (length cur))
      (λ _.
        ink-append (cur ++ sep) p
        ∙ ap (λ (t : Bytes). t ++ ink p)
            (ink-append cur sep ∙ ap (λ (t : Bytes). ink cur ++ t) blank ∙ append-nil (ink cur)))
      (λ _. ink-append cur p)

merge_parts-ink :
    (size : ℕ) (parts : List Bytes) (sep : Bytes)
    → ink sep ≡ []
    → ink_all (merge_parts parts sep size 0) ≡ ink_all parts
unfolding merge_parts
merge_parts-ink size parts sep blank =
    merge_loop-ink (write_part sep) sep (write_part_first sep)
      (λ cur p. write_part-ink sep cur p blank) size parts []
    ∙ ap (λ (t : Bytes). t ++ ink_all parts) ink_nil

recursive_split-ink :
    (text : Bytes) (size : ℕ)
    → 0 < size
    → ink_all (recursive_split text separators size 0) ≡ ink text
unfolding recursive_split force_split_by_size
recursive_split-ink text size h =
    cascade-ink _ _ size (merge_parts-ink size)
      (λ t.
        sym (ink-flatten (force_split t size 0))
        ∙ ap ink (flatten-force_split t size 0 h (inl refl)))
      separators separators-IsSeparator text

actual_size_pos : (config : ChunkingConfig) → 0 < actual_size config
unfolding actual_size
actual_size_pos config = size_pos config.chunk_size
  where
    size_pos : (z : ℤ) → 0 < (if is_nonpos z then 1000 else to_ℕ z)
    size_pos (pos n) = ground arith
    size_pos (negsuc n) = omega arith

chunk_text-ink :
    (text : Bytes) (config : ChunkingConfig)
    → config.enabled ≡ true
    → actual_overlap config ≡ 0
    → ink_all (chunk_text text config) ≡ ink text
unfolding chunk_text
chunk_text-ink [] config on none_kept = sym ink_nil
chunk_text-ink (c ∷ text) config on none_kept =
    if_ind (λ (cs : List Bytes). ink_all cs ≡ ink (c ∷ text))
      (length (c ∷ text) == 0 || not config.enabled) (λ empty. absurd (ground arith))
      (λ _.
        ap (λ (o : ℕ). ink_all (recursive_split (c ∷ text) separators (actual_size config) o))
          none_kept
        ∙ recursive_split-ink (c ∷ text) (actual_size config) (actual_size_pos config))

-- The splitter that the configuration of the headers gives.
abbrev header_splitter : MdSplitter
header_splitter = record { headers = header_config.headers; trim_headers = false }

newline-ink : ink newline ≡ []
unfolding ink
newline-ink = refl

module _ (config : ChunkingConfig) (on : config.enabled ≡ true)
    (none_kept : actual_overlap config ≡ 0) where
  section_texts-ink : (md : MdSplitterChunk) → ink_all (section_texts config md) ≡ ink md.content
  unfolding section_texts
  section_texts-ink md =
      if_ind (λ (cs : List Bytes). ink_all cs ≡ ink md.content)
        (exceeds (length md.content) config.chunk_size)
        (λ _. chunk_text-ink md.content config on none_kept) (λ _. append-nil (ink md.content))

  all_texts-ink :
      (mds : List MdSplitterChunk) → ink_all (all_texts config mds) ≡ ink_all (contents mds)
  all_texts-ink [] = refl
  all_texts-ink (md ∷ mds) =
      ink_all-append (section_texts config md) (all_texts config mds)
      ∙ simp (section_texts-ink md, all_texts-ink mds)

  by_recursive_split-ink :
      (content : Bytes)
      → ink_all (chunk_contents (chunk_by_recursive_split content config)) ≡ ink content
  unfolding chunk_by_recursive_split
  by_recursive_split-ink content =
      ap ink_all (contents-number_chunks _ 1 (chunk_text content config))
      ∙ chunk_text-ink content config on none_kept

  by_headers-ink :
      (content : Bytes)
      → ink_all (chunk_contents (chunk_markdown_with_headers content config)) ≡ ink content
  unfolding chunk_markdown_with_headers chunk_with_splitter new_md_splitter
  by_headers-ink content =
      let sections = split_md header_splitter content in
      ap ink_all (contents-chunk_sections config 1 sections)
      ∙ all_texts-ink sections
      ∙ sym (ink-flatten (contents sections))
      ∙ sym (ink-join (contents sections) newline newline-ink)
      ∙ ap ink (join-split_md header_splitter content refl)

  -- With chunking enabled and no overlap, a document without pages, or of another type than PDF,
  -- keeps its content: the chunks, one after the other, have the visible ASCII characters of the
  -- document, in order and each once, but for the punctuation that the chunker splits at.
  pub chunk_document-ink :
      (doc : FileDocument)
      → (doc.pages ≡ []) ⊎ (bytes_eq doc.file_type (codes "pdf") ≡ false)
      → ink (flatten (chunk_contents (chunk_document (some doc) config))) ≡ ink doc.content
  unfolding chunk_document chunk_by_type
  chunk_document-ink doc no_pages =
      let P = λ (cs : List DocumentChunk). ink (flatten (chunk_contents cs)) ≡ ink doc.content in
      let headers = ink-flatten _ ∙ by_headers-ink doc.content in
      let plain = ink-flatten _ ∙ by_recursive_split-ink doc.content in
      if_ind P (not config.enabled) (λ off. absurd (ground arith))
        λ _.
          if_ind P (bytes_eq doc.file_type (codes "pdf"))
            (λ pdf.
              if_ind P (ltb 0 (length doc.pages)) (λ some_pages. absurd (ground arith))
                (λ _. headers))
            (λ _. if_ind P (is_header_type doc.file_type) (λ _. headers) (λ _. plain))
