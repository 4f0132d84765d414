-- ===== src/Tests/Loading.antt =====
-- Files loaded from a disk that holds a memo.
use fileprocessor.Base.{
  ℕ, ◌≡◌, refl, inl, inr, false, none, List, [], ◌∷◌, ◌++◌, arith, ◌==◌, if◌then◌else◌, Bytes,
  codes, length, All, fail_as, and_then,
}
use fileprocessor.Text.{has_prefix, split, trim_space, decimal}
use fileprocessor.MdSplitter.{MdSplitter, newline, split_md, find_bad_header, is_hashes}
use fileprocessor.Loader.{Readers, PdfReader}
use fileprocessor.Loader.Content.{
  DocumentPage, PageMetadata, text_content, fenced, no_text, extract_loop, extract_pdf_pages,
  page_text, add_page, make_pdf_page, page_markdown, or_no_text, count_lines,
}
use fileprocessor.Loader.Load.{load_file, load_bytes}
use fileprocessor.Loader.Agree.{outcome, plain_error, Holds, load_bytes-load_file}
use fileprocessor.Loader.Pages.{ArePages, pages_markdown, extract_pdf_pages-pages}
use fileprocessor.Loader.Fence.{IsPlain, split_md-text_content}

abbrev memo : Bytes
memo = codes "## Today\nnothing"

abbrev memo_path : Bytes
memo_path = codes "/home/memo.TXT"

abbrev report : PdfReader Bytes
report = record {
  get_num_pages = inr 2;
  get_page = λ i. inr (inr (if i == 1 then inr (codes "one") else inr (codes " \n")));
}

abbrev disk : Readers Bytes ℕ
disk = record {
  stat = λ path. inr 7;
  is_zero = λ time. time == 0;
  read_file = λ path. inr memo;
  new_pdf_reader = λ content. inr report;
  read_office = λ format content. inl (codes "corrupt");
  open_pdf = λ path. inr memo;
  open_office = λ format path. inl (codes "corrupt");
}

memo-Holds : Holds disk memo_path memo
memo-Holds = record {
  mod_time = 7;
  stat = refl;
  read_file = refl;
  open_pdf = refl;
  open_office = λ format. refl;
}

load_bytes-load_file_example :
    outcome (load_bytes disk 0 memo_path memo)
    ≡ fail_as plain_error (outcome (load_file disk memo_path none))
load_bytes-load_file_example = load_bytes-load_file disk memo_path memo 0 memo-Holds (omega arith)

abbrev report_pages : List DocumentPage
report_pages =
    record {
      char_count = 3;
      line_count = 1;
      metadata = PageMetadata.page_number 1;
      page_content = codes "one";
    }
    ∷ record {
      char_count = 39;
      line_count = 1;
      metadata = PageMetadata.page_number 2;
      page_content = no_text;
    }
    ∷ []

abbrev report_content : Bytes
report_content =
    codes
      "# PDF Document\n\n## Page 1\n\none\n\n## Page 2\n\n[Unable to extract text from this page]\n\n"

report_extracted : extract_pdf_pages report 2 ≡ inr (report_pages, report_content)
unfolding extract_pdf_pages extract_loop page_text add_page make_pdf_page page_markdown or_no_text
report_extracted = unfold trim_space count_lines decimal and_then fail_as in refl

extract_pdf_pages-pages_example :
    (length report_pages ≡ 2)
    × (ArePages 1 report_pages
        × (report_content ≡ codes "# PDF Document\n\n" ++ pages_markdown 1 report_pages))
extract_pdf_pages-pages_example =
    extract_pdf_pages-pages report 2 report_pages report_content report_extracted

abbrev headings : MdSplitter
headings = record {
  headers = (codes "##", codes "h2") ∷ (codes "###", codes "h3") ∷ [];
  trim_headers = false;
}

headings_good : find_bad_header headings.headers ≡ none
unfolding find_bad_header is_hashes
headings_good = refl

memo-IsPlain : All IsPlain (split memo newline)
unfolding split trim_space has_prefix
memo-IsPlain = (refl, (refl, tt))

split_md-text_content_example :
    split_md headings (text_content memo).1 ≡ record { content = fenced memo; metadata = [] } ∷ []
split_md-text_content_example = split_md-text_content headings memo headings_good memo-IsPlain
