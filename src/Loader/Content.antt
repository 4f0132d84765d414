-- ===== src/Loader/Content.antt =====
-- loader_text.go, loader_office.go and `extractPDFPages` of loader_bytes.go: the pages of a file and
-- its content as markdown.
use fileprocessor.Base.{
  ℕ, zero, suc, ◌+◌, ◌⊎◌, inr, List, [], ◌∷◌, ◌++◌, ◌==◌, if◌then◌else◌, Bytes, codes, length,
  fail_as, and_then,
}
use fileprocessor.Text.{split, trim_space, decimal}
use fileprocessor.Paths.{base_name}
use fileprocessor.Loader.{OfficeFormat, OfficeDocument, PdfReader, Readers, LoadError}

pub data PageMetadata : Type 0 where
  no_metadata : PageMetadata
  line_numbers : (first last : ℕ) → PageMetadata
  page_number : ℕ → PageMetadata
  image_page : PageMetadata
  video_page : PageMetadata

pub record DocumentPage : Type 0 where
  pub char_count : ℕ
  pub line_count : ℕ
  pub metadata : PageMetadata
  pub page_content : Bytes

-- The pages of a file and its content as markdown.
abbrev pub Loaded : Type 0
Loaded = List DocumentPage × Bytes

-- `len(strings.Split(text, "\n"))`.
unfoldable pub count_lines : Bytes → ℕ
unfolding split
count_lines text = length (split text (codes "\n"))

abbrev pub fence_open : Bytes
fence_open = codes "```\n"

abbrev pub fence_close : Bytes
fence_close = codes "\n```"

unfoldable pub fenced : Bytes → Bytes
fenced text = fence_open ++ (text ++ fence_close)

unfoldable pub text_content : Bytes → Loaded
text_content text = (
  record {
    char_count = length text;
    line_count = count_lines text;
    metadata = line_numbers 1 (count_lines text);
    page_content = text;
  }
      ∷ [],
  fenced text,
)

unfoldable pub image_content : Bytes → Loaded
image_content path =
    let filename = base_name path in
    let markdown = codes "![" ++ (filename ++ (codes "](/files/" ++ (filename ++ codes ")\n\n"))) in
    (
      record {
        char_count = length markdown;
        line_count = 1;
        metadata = image_page;
        page_content = markdown;
      }
          ∷ [],
      markdown,
    )

unfoldable pub video_content : Bytes → Loaded
video_content path =
    let markdown =
      codes "# Video: " ++ (base_name path ++ codes "\n\n*Video processing in progress...*\n") in
    (
      record {
        char_count = length markdown;
        line_count = 3;
        metadata = video_page;
        page_content = markdown;
      }
          ∷ [],
      markdown,
    )

-- What stands for a document without content.
abbrev pub placeholder : OfficeFormat → Bytes
placeholder OfficeFormat.docx = codes "# DOCX Document\n\n*No content found in document*"
placeholder OfficeFormat.xlsx = codes "# Excel Workbook\n\n*No content found in workbook*"
placeholder OfficeFormat.pptx =
    codes "# PowerPoint Presentation\n\n*No content found in presentation*"

unfoldable pub or_placeholder : OfficeFormat → Bytes → Bytes
or_placeholder format markdown = if length markdown == 0 then placeholder format else markdown

unfoldable pub office_content : OfficeFormat → Bytes → Loaded
office_content format converted =
    let markdown = or_placeholder format converted in
    (
      record {
        char_count = length markdown;
        line_count = count_lines markdown;
        metadata = no_metadata;
        page_content = markdown;
      }
          ∷ [],
      markdown,
    )

abbrev pub no_text : Bytes
no_text = codes "[Unable to extract text from this page]"

unfoldable pub or_no_text : Bytes → Bytes
or_no_text text = if length (trim_space text) == 0 then no_text else text

unfoldable pub make_pdf_page : ℕ → Bytes → DocumentPage
make_pdf_page i text = record {
  char_count = length text;
  line_count = count_lines text;
  metadata = page_number i;
  page_content = text;
}

-- `fmt.Fprintf(&sb, "## Page %d\n\n%s\n\n", i, text)`.
unfoldable pub page_markdown : ℕ → Bytes → Bytes
page_markdown i text = codes "## Page " ++ (decimal i ++ (codes "\n\n" ++ (text ++ codes "\n\n")))

-- Page `i` before those that follow it.
unfoldable pub add_page : ℕ → Bytes → Loaded → Loaded
add_page i text more = (make_pdf_page i text ∷ more.0, page_markdown i text ++ more.1)

module _ {E : Type 0} where
  -- The text of page `i`.
  unfoldable pub page_text : PdfReader E → ℕ → LoadError E ⊎ Bytes
  page_text reader i = and_then (fail_as (LoadError.get_page_failed i) (reader.get_page i)) (λ page.
      and_then (fail_as (LoadError.create_extractor_failed i) page)
        (λ extracted. fail_as (LoadError.extract_page_failed i) extracted))

  -- The loop of `extractPDFPages` over so many pages from page `i` on.
  unfoldable pub extract_loop : PdfReader E → ℕ → ℕ → LoadError E ⊎ Loaded
  extract_loop reader i zero = inr ([], [])
  extract_loop reader i (suc n) =
      let rest = extract_loop reader (i + 1) n in
      and_then (page_text reader i)
        (λ text. and_then rest (λ more. inr (add_page i (or_no_text text) more)))

  unfoldable pub extract_pdf_pages : PdfReader E → ℕ → LoadError E ⊎ Loaded
  extract_pdf_pages reader num_pages =
      and_then (extract_loop reader 1 num_pages)
        (λ found. inr (found.0, codes "# PDF Document\n\n" ++ found.1))

  -- `loadPDFBytes`.
  unfoldable pub load_pdf_bytes : {T : Type 0} → Readers E T → Bytes → LoadError E ⊎ Loaded
  load_pdf_bytes readers content =
      and_then (fail_as LoadError.create_pdf_reader_failed (readers.new_pdf_reader content))
        (λ reader.
          and_then (fail_as LoadError.get_num_pages_failed reader.get_num_pages)
            (λ num_pages. extract_pdf_pages reader num_pages))

  -- An office document, once its package has opened it; `wrap` is what becomes of an error of the
  -- conversion.
  unfoldable pub office_document :
      (E → LoadError E) → OfficeFormat → E ⊎ OfficeDocument E → LoadError E ⊎ Loaded
  office_document wrap format opened =
      and_then (fail_as LoadError.open_failed opened) (λ to_markdown.
        and_then (fail_as wrap (to_markdown (codes "/files")))
          (λ markdown. inr (office_content format markdown)))
