-- ===== src/RagChunker/Pages.antt =====
-- Page numbers, chunk numbers and content of the chunks that are merged by pages.
use fileprocessor.Base.{
  ℕ, zero, suc, ◌+◌, ◌≡◌, refl, ap, ◌∙◌, ◌≢◌, ◌⊎◌, inl, inr, true, ◌&&◌, List, [], ◌∷◌, ◌++◌, map,
  append_assoc, arith, ltb, if_ind, Bytes, is_nonpos, exceeds, length, flatten, length-append,
}
use fileprocessor.RagChunker.{
  ChunkingConfig, DocumentPage, DocumentChunk, pdf_pages, make_pdf_chunk, page_overlap, blank_line,
  pdf_loop, chunk_pdf_by_pages,
}
use fileprocessor.RagChunker.Bounds.{chunk_contents}

-- The page numbers in a chunk's metadata.
abbrev pub page_numbers : DocumentChunk → List ℕ
page_numbers c = elim c.metadata [ pdf_pages ns ↦ ns | _ ↦ [] ]

-- The `k` numbers behind `i`.
abbrev pub range_after : ℕ → ℕ → List ℕ
range_after i zero = []
range_after i (suc k) = (i + 1) ∷ range_after (i + 1) k

abbrev pub page_texts : List DocumentPage → Bytes
page_texts [] = []
page_texts (p ∷ ps) = p.page_content ++ (blank_line ++ page_texts ps)

text_ne_nil : (a b : Bytes) → (a ++ (b ++ blank_line)) ≢ []
text_ne_nil a b e =
    absurd
      (omega (arith, ap length e, length-append a (b ++ blank_line), length-append b blank_line))

no_page_overlap :
    (config : ChunkingConfig) (i : ℕ) (prev : Bytes)
    → is_nonpos config.overlap_size ≡ true
    → page_overlap config i prev ≡ []
unfolding page_overlap
no_page_overlap config i prev none_kept = rw none_kept

pdf_loop-pages :
    (config : ChunkingConfig) (pages : List DocumentPage) (i : ℕ) (prev : Bytes) (id : ℕ)
    (current : Bytes) (current_pages : List ℕ)
    → (current ≢ []) ⊎ (current_pages ≡ [])
    → flatten (map page_numbers (pdf_loop config pages i prev id current current_pages))
      ≡ current_pages ++ range_after i (length pages)
unfolding pdf_loop make_pdf_chunk
pdf_loop-pages config [] i prev id [] current_pages h = ground arith
pdf_loop-pages config [] i prev id (c ∷ current) current_pages h = ground arith
pdf_loop-pages config (page ∷ pages) i prev id current current_pages h =
    let text = page.page_content ++ blank_line in
    let goal = λ (cs : List DocumentChunk).
      flatten (map page_numbers cs)
      ≡ current_pages ++ (i + 1) ∷ range_after (i + 1) (length pages) in
    if_ind goal
      (ltb 0 (length current) && exceeds (length current + page.char_count) config.chunk_size)
      (λ _.
        ap (λ (ns : List ℕ). current_pages ++ ns)
          (pdf_loop-pages config pages (i + 1) page.page_content (id + 1)
            (page_overlap config i prev ++ text) ((i + 1) ∷ [])
            (inl (text_ne_nil (page_overlap config i prev) page.page_content))))
      (λ _.
        pdf_loop-pages config pages (i + 1) page.page_content id (current ++ text)
          (current_pages ++ (i + 1) ∷ []) (inl (text_ne_nil current page.page_content))
        ∙ append_assoc current_pages ((i + 1) ∷ []) (range_after (i + 1) (length pages)))

-- Every page is recorded in one chunk, in order: the page numbers of all chunks, one after the
-- other, are 1 to the number of pages.
pub chunk_pdf_by_pages-pages :
    (pages : List DocumentPage) (config : ChunkingConfig)
    → flatten (map page_numbers (chunk_pdf_by_pages pages config)) ≡ range_after 0 (length pages)
unfolding chunk_pdf_by_pages
chunk_pdf_by_pages-pages pages config = pdf_loop-pages config pages 0 [] 1 [] [] (inr refl)

pdf_loop-texts :
    (config : ChunkingConfig) (pages : List DocumentPage) (i : ℕ) (prev : Bytes) (id : ℕ)
    (current : Bytes) (current_pages : List ℕ)
    → is_nonpos config.overlap_size ≡ true
    → flatten (chunk_contents (pdf_loop config pages i prev id current current_pages))
      ≡ current ++ page_texts pages
unfolding pdf_loop make_pdf_chunk
pdf_loop-texts config [] i prev id [] current_pages none_kept = ground arith
pdf_loop-texts config [] i prev id (c ∷ current) current_pages none_kept = ground arith
pdf_loop-texts config (page ∷ pages) i prev id current current_pages none_kept =
    let text = page.page_content ++ blank_line in
    let goal = λ (cs : List DocumentChunk).
      flatten (chunk_contents cs)
      ≡ current ++ (page.page_content ++ (blank_line ++ page_texts pages)) in
    if_ind goal
      (ltb 0 (length current) && exceeds (length current + page.char_count) config.chunk_size)
      (λ _.
        ap (λ (t : Bytes). current ++ t)
          (pdf_loop-texts config pages (i + 1) page.page_content (id + 1)
              (page_overlap config i prev ++ text) ((i + 1) ∷ []) none_kept
            ∙ ap (λ (t : Bytes). (t ++ text) ++ page_texts pages)
                (no_page_overlap config i prev none_kept)
            ∙ append_assoc page.page_content blank_line (page_texts pages)))
      (λ _.
        pdf_loop-texts config pages (i + 1) page.page_content id (current ++ text)
          (current_pages ++ (i + 1) ∷ []) none_kept
        ∙ simp append_assoc)

-- Without overlap the chunks, one after the other, are the pages, each with a blank line behind it.
pub chunk_pdf_by_pages-texts :
    (pages : List DocumentPage) (config : ChunkingConfig)
    → is_nonpos config.overlap_size ≡ true
    → flatten (chunk_contents (chunk_pdf_by_pages pages config)) ≡ page_texts pages
unfolding chunk_pdf_by_pages
chunk_pdf_by_pages-texts pages config none_kept = pdf_loop-texts config pages 0 [] 1 [] [] none_kept
