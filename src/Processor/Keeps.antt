-- ===== src/Processor/Keeps.antt =====
-- The text that is added to the document of an image whose text could be read.
use fileprocessor.Base.{◌≤◌, ◌<◌, ◌≡◌, ◌⊎◌, inr, Option, none, some, ◌++◌, Bytes, ℤ, length}
use fileprocessor.Text.{trim_space}
use fileprocessor.Paths.{to_lower}
use fileprocessor.Processor.{LanguageModel, Processor}
use fileprocessor.Processor.Enrich.{system_prompt, user_prompt, doc_hint, ext_of, Enrichment}

-- The model was asked to clean the text up, and this is its answer without the space around it.
abbrev pub IsAnswer :
    {W E : Type 0} (timeout : ℤ) (lm : Option (LanguageModel W E)) (filename cleaned : Bytes)
    (w : W) (content : Bytes)
    → Type 0
IsAnswer {W} {E} timeout lm filename cleaned w content =
    (generate : LanguageModel W E) × (result : Bytes) × (w' : W) × (lm ≡ some generate)
    × ((generate timeout system_prompt (user_prompt (doc_hint (to_lower (ext_of filename))) cleaned)
            w
          ≡ (inr result, w'))
        × (content ≡ trim_space result))

-- A text to add that is not empty, and ends with the one read from the image, or is an answer of at
-- least 10 bytes for a text of more than 20 bytes.
abbrev pub KeepsText : (Bytes → Type 0) → Bytes → Bytes → Type 0
KeepsText Answered cleaned content =
    (0 < length content)
    × (((front : Bytes) × (content ≡ front ++ cleaned))
        ⊎ ((20 < length cleaned) × ((10 ≤ length content) × Answered content)))

abbrev pub Keeps : (Bytes → Type 0) → Bytes → Enrichment → Type 0
Keeps Answered cleaned none = ⊥
Keeps Answered cleaned (some (content_type, content)) = KeepsText Answered cleaned content
