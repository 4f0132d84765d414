-- ===== src/Loader/Fence.antt =====
-- The content of a text file, cut at its headers: the fence around it hides them.
use fileprocessor.Base.{
  ◌≡◌, refl, sym, ap, ◌∙◌, inl, inr, true, false, none, List, [], ◌∷◌, ◌++◌, append-nil, arith,
  ◌==◌, Bool-cases, Bytes, length, snoc-append, All,
}
use fileprocessor.Text.{has_prefix, split_from, split, cons_head, join, trim_space, count}
use fileprocessor.Text.Laws.{join-split, split-append}
use fileprocessor.MdSplitter.{
  MdSplitter, StringMap, SplitState, newline, code_fence_backtick, add_line, track_fence,
  find_header, find_bad_header, is_header_line, ends_header, is_hashes, step_line, place_line,
  split_lines, initial, emit, split_md,
}
use fileprocessor.Loader.Content.{fenced, text_content}

-- A line that neither opens nor closes a fence of backticks.
abbrev pub IsPlain : Bytes → Type 0
IsPlain line = has_prefix (trim_space line) code_fence_backtick ≡ false

-- A line of backticks is no header.
not_header : (h : Bytes) → is_hashes h ≡ true → is_header_line code_fence_backtick h ≡ false
unfolding is_hashes is_header_line has_prefix
not_header [] hashes = unfold ends_header in refl
not_header (c ∷ h) hashes = ground arith

no_header_fence :
    (hs : StringMap) → find_bad_header hs ≡ none → find_header hs code_fence_backtick ≡ none
unfolding find_bad_header find_header
no_header_fence [] good = refl
no_header_fence ((h, name) ∷ hs) good = ground (arith, not_header h, no_header_fence hs)

-- The state inside the code block that the first line opened.
abbrev inside : List Bytes → SplitState
inside lines = record {
  recorded_meta_list = [];
  recorded_meta_map = [];
  current_lines = lines;
  in_code_block = true;
  opening_fence = code_fence_backtick;
  chunks = [];
}

abbrev closed : List Bytes → SplitState
closed lines = record (inside lines) { in_code_block = false; opening_fence = [] }

trim-fence : trim_space code_fence_backtick ≡ code_fence_backtick
unfolding trim_space
trim-fence = refl

split_one : split code_fence_backtick newline ≡ code_fence_backtick ∷ []
unfolding split split_from has_prefix cons_head
split_one = refl

split-fenced :
    (text : Bytes)
    → split (fenced text) newline
      ≡ code_fence_backtick ∷ (split text newline ++ code_fence_backtick ∷ [])
unfolding fenced
split-fenced text =
    split-append b'\n' code_fence_backtick (text ++ b'\n' ∷ code_fence_backtick)
    ∙ rw (split_one, split-append b'\n' text code_fence_backtick, split_one) refl

emit-closed :
    (lines : List Bytes)
    → emit (closed (code_fence_backtick ∷ lines))
      ≡ record { content = join (code_fence_backtick ∷ lines) newline; metadata = [] } ∷ []
unfolding emit
emit-closed lines = refl

module _ (s : MdSplitter) where
  step_line-open : step_line s initial code_fence_backtick ≡ inside (code_fence_backtick ∷ [])
  unfolding step_line track_fence add_line
  step_line-open = rw trim-fence (unfold has_prefix count in refl)

  step_line-inside :
      (lines : List Bytes) (line : Bytes)
      → IsPlain line
      → step_line s (inside lines) line ≡ inside (lines ++ line ∷ [])
  unfolding step_line track_fence add_line
  step_line-inside lines line plain = elim (Bool-cases (length line == 0)) [
    | inl empty ↦ rw empty refl
    | inr some_byte ↦ rw (some_byte, plain) refl
  ]

  step_line-close :
      (lines : List Bytes)
      → find_bad_header s.headers ≡ none
      → step_line s (inside lines) code_fence_backtick ≡ closed (lines ++ code_fence_backtick ∷ [])
  unfolding step_line track_fence add_line place_line
  step_line-close lines good =
      rw (trim-fence, no_header_fence s.headers good) (unfold has_prefix in refl)

  split_lines-inside :
      (lines acc rest : List Bytes)
      → All IsPlain lines
      → split_lines s (inside acc) (lines ++ rest) ≡ split_lines s (inside (acc ++ lines)) rest
  unfolding split_lines
  split_lines-inside [] acc rest _ = rw (append-nil acc) refl
  split_lines-inside (line ∷ lines) acc rest (plain, h) =
      rw (step_line-inside acc line plain, split_lines)
        (split_lines-inside lines (acc ++ line ∷ []) rest h
          ∙ ap (λ (a : List Bytes). split_lines s (inside a) rest) (snoc-append acc line lines))

  split_lines-fenced :
      (lines : List Bytes)
      → find_bad_header s.headers ≡ none
      → All IsPlain lines
      → split_lines s initial (code_fence_backtick ∷ (lines ++ code_fence_backtick ∷ []))
        ≡ closed (code_fence_backtick ∷ (lines ++ code_fence_backtick ∷ []))
  unfolding split_lines
  split_lines-fenced lines good plain =
      rw (step_line-open, split_lines)
        (split_lines-inside lines (code_fence_backtick ∷ []) (code_fence_backtick ∷ []) plain
          ∙ step_line-close (code_fence_backtick ∷ lines) good)

  -- The content that the loader makes of a text file is one section for the markdown splitter,
  -- without metadata, whatever headers stand in the text. This supposes that the headers the
  -- splitter looks for are hash marks, and that no line of the text begins with a fence of
  -- backticks, white space aside.
  pub split_md-text_content :
      (text : Bytes)
      → find_bad_header s.headers ≡ none
      → All IsPlain (split text newline)
      → split_md s (text_content text).1 ≡ record { content = fenced text; metadata = [] } ∷ []
  unfolding split_md text_content
  split_md-text_content text good plain =
      let whole = emit-closed (split text newline ++ code_fence_backtick ∷ []) in
      rw (split-fenced text, split_lines-fenced (split text newline) good plain)
        (whole
          ∙ ap (λ (t : Bytes). record { content = t; metadata = [] } ∷ [])
              (ap (λ (ls : List Bytes). join ls newline) (sym (split-fenced text))
                ∙ join-split (fenced text) b'\n' []))
