-- ===== src/Processor/Enrich.antt =====
-- ocr.go and `processImageDescriptionAsync` of processor.go: the text that is added to the document
-- of an image.
use fileprocessor.Base.{
  ◌⊎◌, inl, inr, ◌||◌, Option, none, some, [], ◌∷◌, ◌++◌, reverse, ltb, ◌==◌, if◌then◌else◌, Bytes,
  codes, bytes_eq, ℤ, length, and_then, try_then,
}
use fileprocessor.Text.{trim_space}
use fileprocessor.Paths.{to_lower}
use fileprocessor.Processor.{LanguageModel, VlProvider, Processor, Host}

-- `extOf`: what stands behind the last dot.
unfoldable pub ext_of_loop : Bytes → Bytes → Bytes
ext_of_loop [] passed = []
ext_of_loop (c ∷ s) passed =
    let rest = ext_of_loop s (c ∷ passed) in if c == b'.' then passed else rest

unfoldable pub ext_of : Bytes → Bytes
unfolding ext_of_loop
ext_of name = ext_of_loop (reverse name) []

abbrev pub doc_hint : Bytes → Bytes
doc_hint e =
    if bytes_eq e (codes "pdf")
    then codes "This appears to be from a PDF document."
    else if bytes_eq e (codes "png") || bytes_eq e (codes "jpg") || bytes_eq e (codes "jpeg")
    then codes "This is from a screenshot or image."
    else codes "This is from an image file."

abbrev pub system_prompt : Bytes
system_prompt =
    codes
      "You are an OCR text editor. Clean up raw OCR output:\n- Fix obvious typos and character recognition errors\n- Preserve original structure and formatting\n- Format as proper markdown when appropriate\n- Output ONLY the cleaned text without explanations."

abbrev instructions : Bytes
instructions =
    codes
      "\n\nInstructions:\n1. Fix obvious OCR errors and typos\n2. Remove artifacts like random characters, broken words\n3. Preserve the original meaning and structure\n4. Format as proper markdown:\n   - Use headers (##, ###) for section titles\n   - Use bullet points or numbered lists where appropriate\n   - Use **bold** for emphasis or important terms\n   - Use code blocks for any code or technical content\n5. If it's a table, format it as a markdown table\n6. Keep the content concise but complete\n7. Output ONLY the cleaned markdown, no explanations\n\nRaw OCR text:\n---\n"

unfoldable pub user_prompt : Bytes → Bytes → Bytes
user_prompt hint raw_text =
    codes "Clean up the following OCR-extracted text and format it as clean markdown.\n\n"
    ++ (hint ++ (instructions ++ (raw_text ++ codes "\n---\n\nCleaned markdown:")))

-- The answer of the model, or the raw text where the answer is too short.
unfoldable pub accept_answer : Bytes → Bytes → Bytes
accept_answer raw_text result =
    let trimmed = trim_space result in if ltb (length trimmed) 10 then raw_text else trimmed

abbrev pub image_prompt : Bytes
image_prompt =
    codes
      "Describe this image in detail. Include all visible text, objects, people, colors, and layout."

abbrev pub languages : Bytes
languages = codes "eng+ind+jpn+chi_sim"

-- The second run of the program, after the first.
unfoldable pub retry_command : {E : Type 0} → E ⊎ Bytes → E ⊎ Bytes → E ⊎ Bytes
retry_command (inr out) second = inr out
retry_command (inl err) second = second

module _ {W E : Type 0} where
  -- `CleanupOCRText`, within a time.
  unfoldable pub cleanup_ocr_text :
      ℤ → Option (LanguageModel W E) → Bytes → Bytes → W → (E ⊎ Bytes) × W
  cleanup_ocr_text timeout none raw_text filename w = (inr raw_text, w)
  cleanup_ocr_text timeout (some generate) raw_text filename w =
      let hint = doc_hint (to_lower (ext_of filename)) in
      try_then (λ err. err) (generate timeout system_prompt (user_prompt hint raw_text) w)
        (λ result w'. (inr (accept_answer raw_text result), w'))

  -- `ExtractTextWithTesseract`.
  unfoldable pub extract_text_with_tesseract : {T : Type 0} → Host W E T → Bytes → W → E ⊎ Bytes
  extract_text_with_tesseract host path w =
      and_then (host.look_path (codes "tesseract") w) (λ program.
        retry_command
          (host.run_command program (path ∷ codes "stdout" ∷ codes "-l" ∷ languages ∷ []) w)
          (host.run_command program (path ∷ codes "stdout" ∷ []) w))

-- The text that a call gave, which is empty if it failed.
unfoldable pub or_empty : {E : Type 0} → E ⊎ Bytes → Bytes
or_empty (inl err) = []
or_empty (inr text) = text

-- The text to add, under the name of its kind; none if there is nothing to add.
abbrev pub Enrichment : Type 0
Enrichment = Option (Bytes × Bytes)

unfoldable pub with_ocr : Bytes → Bytes → Bytes
with_ocr description cleaned =
    if ltb 0 (length cleaned)
    then description ++ (codes "\n\n**Extracted Text (OCR):**\n" ++ cleaned)
    else description

unfoldable pub or_cleaned : Bytes → Bytes → Enrichment
or_cleaned content_type cleaned =
    if ltb 0 (length cleaned) then some (content_type, cleaned) else none

module _ {W E : Type 0} where
  -- The branches for a text that is long enough, by what the cleanup gives.
  unfoldable pub after_cleanup : Bytes → (E ⊎ Bytes) × W → Enrichment × W
  after_cleanup cleaned (inl err, w) = (some (codes "OCR Text (Tesseract - raw)", cleaned), w)
  after_cleanup cleaned (inr out, w) = (some (codes "OCR Text (Tesseract + LLM cleanup)", out), w)

  -- The branches for a short text, by what the provider gives.
  unfoldable pub after_description : Bytes → (E ⊎ Bytes) × W → Enrichment × W
  after_description cleaned (inl err, w) =
      (or_cleaned (codes "OCR Text (Tesseract - VL fallback failed)") cleaned, w)
  after_description cleaned (inr description, w) =
      (some (codes "Image Description (VL Model)", with_ocr description cleaned), w)

  unfoldable pub enrich_long : ℤ → Option (LanguageModel W E) → Bytes → Bytes → W → Enrichment × W
  enrich_long timeout none cleaned filename w = (some (codes "OCR Text (Tesseract)", cleaned), w)
  enrich_long timeout (some lm) cleaned filename w =
      after_cleanup cleaned (cleanup_ocr_text timeout (some lm) cleaned filename w)

  unfoldable pub enrich_short : ℤ → Option (VlProvider W E) → Bytes → Bytes → W → Enrichment × W
  enrich_short max_tokens none cleaned path w =
      (or_cleaned (codes "OCR Text (Tesseract - no VL available)") cleaned, w)
  enrich_short max_tokens (some process_image) cleaned path w =
      after_description cleaned (process_image path image_prompt max_tokens w)

  -- The choice of the text.
  unfoldable pub choose_text :
      {V : Type 0} → Processor W E V → Bytes → Bytes → Bytes → W → Enrichment × W
  choose_text p cleaned path filename w =
      if ltb 20 (length cleaned)
      then enrich_long p.ocr_cleanup_timeout p.lm cleaned filename w
      else enrich_short p.image_vl_max_tokens p.vl cleaned path w
