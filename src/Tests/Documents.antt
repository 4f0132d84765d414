-- ===== src/Tests/Documents.antt =====
-- Markdown and documents of several pages, cut.
use fileprocessor.Base.{
  ◌≡◌, refl, inl, true, false, some, List, [], ◌∷◌, map, arith, Bytes, codes, pos, flatten,
}
use fileprocessor.Text.{join}
use fileprocessor.Text.Ink.{ink}
use fileprocessor.Cascade.Bounds.{Within}
use fileprocessor.MdSplitter.{MdSplitter, StringMap, newline, initial, split_md, split_lines}
use fileprocessor.MdSplitter.Lines.{contents, join-split_md}
use fileprocessor.MdSplitter.Headers.{Nested, split_lines-Nested}
use fileprocessor.RagChunker.{
  ChunkingConfig, DocumentPage, FileDocument, chunk_document, chunk_pdf_by_pages, actual_overlap,
  merge_parts,
}
use fileprocessor.RagChunker.Bounds.{chunk_contents, chunk_limit, chunk_document_bounded}
use fileprocessor.RagChunker.Ink.{chunk_document-ink}
use fileprocessor.RagChunker.Pages.{
  page_numbers, range_after, page_texts, chunk_pdf_by_pages-pages, chunk_pdf_by_pages-texts,
}
use fileprocessor.RagChunker.Merge.{join-merge_parts, merge_parts_flush}

abbrev headers : StringMap
headers = (codes "##", codes "h2") ∷ (codes "###", codes "h3") ∷ []

abbrev splitter : MdSplitter
splitter = record { headers = headers; trim_headers = false }

abbrev handbook : Bytes
handbook = codes "intro\n## A\ntext\n### B\nmore\n## C\nend"

join-split_md_example : join (contents (split_md splitter handbook)) newline ≡ handbook
join-split_md_example = join-split_md splitter handbook refl

split_lines-Nested_example :
    Nested (split_lines splitter initial (codes "## A" ∷ codes "### B" ∷ [])).recorded_meta_list
split_lines-Nested_example =
    split_lines-Nested splitter (codes "## A" ∷ codes "### B" ∷ []) initial tt

abbrev config : ChunkingConfig
config = record { enabled = true; chunk_size = pos 20; overlap_size = pos 0 }

abbrev document : FileDocument
document = record { content = handbook; file_type = codes "txt"; pages = [] }

chunk_document-ink_example :
    ink (flatten (chunk_contents (chunk_document (some document) config))) ≡ ink handbook
unfolding actual_overlap
chunk_document-ink_example = chunk_document-ink config refl refl document (inl refl)

chunk_document_bounded_example :
    Within (chunk_limit config) (chunk_contents (chunk_document (some document) config))
chunk_document_bounded_example = chunk_document_bounded document config (inl refl)

abbrev two_pages : List DocumentPage
two_pages =
    record { char_count = 9; page_content = codes "page one." }
    ∷ record { char_count = 15; page_content = codes "and page number two." }
    ∷ []

chunk_pdf_by_pages-pages_example :
    flatten (map page_numbers (chunk_pdf_by_pages two_pages config)) ≡ range_after 0 2
chunk_pdf_by_pages-pages_example = chunk_pdf_by_pages-pages two_pages config

chunk_pdf_by_pages-texts_example :
    flatten (chunk_contents (chunk_pdf_by_pages two_pages config)) ≡ page_texts two_pages
chunk_pdf_by_pages-texts_example = chunk_pdf_by_pages-texts two_pages config refl

join-merge_parts_example :
    join (merge_parts (codes "a b" ∷ codes "c" ∷ codes "de" ∷ []) (codes ", ") 6 0) (codes ", ")
    ≡ join (codes "a b" ∷ codes "c" ∷ codes "de" ∷ []) (codes ", ")
join-merge_parts_example =
    join-merge_parts (codes "a b") (codes "c" ∷ codes "de" ∷ []) (codes ", ") 6
      ((λ e. cc), ((λ e. cc), ((λ e. cc), tt)))

merge_parts_flush_example :
    merge_parts (codes "hello" ∷ codes "world" ∷ []) (codes " ") 8 2
    ≡ codes "hello" ∷ codes "lo  world" ∷ []
merge_parts_flush_example =
    merge_parts_flush (codes "hello") (codes "world") (codes " ") 8 2 (omega arith) (omega arith)
      (omega arith) (omega arith)
