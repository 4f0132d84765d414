-- ===== src/Loader/Pages.antt =====
-- The pages of a PDF document.
use fileprocessor.Base.{
  ℕ, zero, suc, ◌+◌, ◌<◌, ◌≡◌, refl, ap, inr, List, [], ◌∷◌, ◌++◌, arith, ◌==◌, if_ind, Bytes,
  codes, length, and_then, OnValue, OnValue-and_then,
}
use mathlib.Core.Path.{subst}
use fileprocessor.Text.{trim_space}
use fileprocessor.Loader.{PdfReader}
use fileprocessor.Loader.Content.{
  DocumentPage, PageMetadata, Loaded, no_text, or_no_text, make_pdf_page, add_page, page_markdown,
  page_text, extract_loop, extract_pdf_pages,
}

-- The pages numbered from `i` on: each counts the bytes of its text, which is not blank.
abbrev pub ArePages : ℕ → List DocumentPage → Type 0
ArePages i [] = Unit
ArePages i (p ∷ ps) =
    (p.metadata ≡ PageMetadata.page_number i)
    × ((p.char_count ≡ length p.page_content)
        × ((0 < length (trim_space p.page_content)) × ArePages (i + 1) ps))

-- The content that pages numbered from `i` on make up.
abbrev pub pages_markdown : ℕ → List DocumentPage → Bytes
pages_markdown i [] = []
pages_markdown i (p ∷ ps) = page_markdown i p.page_content ++ pages_markdown (i + 1) ps

abbrev pub ArePagesOf : ℕ → ℕ → Loaded → Type 0
ArePagesOf i n found =
    (length found.0 ≡ n) × (ArePages i found.0 × (found.1 ≡ pages_markdown i found.0))

or_no_text-not_blank : (text : Bytes) → 0 < length (trim_space (or_no_text text))
unfolding or_no_text
or_no_text-not_blank text =
    if_ind (λ (t : Bytes). 0 < length (trim_space t)) (length (trim_space text) == 0) {x = no_text}
      {y = text} (λ blank. unfold trim_space in omega arith) (λ ink. ground arith)

add_page-pages :
    (i n : ℕ) (text : Bytes) (more : Loaded)
    → ArePagesOf (i + 1) n more
    → ArePagesOf i (suc n) (add_page i (or_no_text text) more)
unfolding add_page make_pdf_page
add_page-pages i n text more (count, (pages, content)) = (
  omega (arith, count),
  (
    (refl, (refl, (or_no_text-not_blank text, pages))),
    ap (λ (t : Bytes). page_markdown i (or_no_text text) ++ t) content,
  ),
)

module _ {E : Type 0} (reader : PdfReader E) where
  extract_loop-pages : (i n : ℕ) → OnValue (ArePagesOf i n) (extract_loop reader i n)
  unfolding extract_loop
  extract_loop-pages i zero = (refl, (tt, refl))
  extract_loop-pages i (suc n) =
      OnValue-and_then (ArePagesOf i (suc n)) (page_text reader i)
        (λ text.
          and_then (extract_loop reader (i + 1) n)
            (λ more. inr (add_page i (or_no_text text) more)))
        (λ text there.
          OnValue-and_then (ArePagesOf i (suc n)) (extract_loop reader (i + 1) n)
            (λ more. inr (add_page i (or_no_text text) more))
            (λ more rest.
              let found = extract_loop-pages (i + 1) n in
              add_page-pages i n text more (subst (OnValue (ArePagesOf (i + 1) n)) rest found)))

  -- When the extraction of a PDF document of `n` pages succeeds, it gives `n` pages, numbered from
  -- 1, each with the length of its text, and none of them blank; the content is the title followed
  -- by the texts of these pages under their numbers, in order.
  pub extract_pdf_pages-pages :
      (n : ℕ) (pages : List DocumentPage) (content : Bytes)
      → extract_pdf_pages reader n ≡ inr (pages, content)
      → (length pages ≡ n)
        × (ArePages 1 pages × (content ≡ codes "# PDF Document\n\n" ++ pages_markdown 1 pages))
  unfolding extract_pdf_pages
  extract_pdf_pages-pages n pages content done =
      let Titled : Loaded → Type 0 = λ found.
        (length found.0 ≡ n)
        × (ArePages 1 found.0
            × (found.1 ≡ codes "# PDF Document\n\n" ++ pages_markdown 1 found.0)) in
      subst (OnValue Titled) done (
        OnValue-and_then Titled (extract_loop reader 1 n) _ (λ found e.
          let (count, (are, shown)) = subst (OnValue (ArePagesOf 1 n)) e (extract_loop-pages 1 n) in
          (count, (are, ap (λ (t : Bytes). codes "# PDF Document\n\n" ++ t) shown))))
