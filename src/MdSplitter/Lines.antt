-- ===== src/MdSplitter/Lines.antt =====
-- Every line of the text stands in exactly one chunk.
use fileprocessor.Base.{
  ◌≡◌, refl, sym, ap, ◌∙◌, ◌≢◌, false, Option, none, some, List, [], ◌∷◌, ◌++◌, map, append-nil,
  append_assoc, arith, ◌==◌, if_ind, Bytes, length,
}
use mathlib.Core.List.{map-append}
use fileprocessor.Text.{join, split, trim_space}
use fileprocessor.Text.Laws.{join-split, join-cons}
use fileprocessor.MdSplitter.{
  MdSplitter, MdSplitterChunk, SplitState, newline, add_line, track_fence, find_header, emit,
  find_header, start_section, step_line, place_line, split_lines, initial, split_md,
}

abbrev pub contents : List MdSplitterChunk → List Bytes
contents = map (λ c. c.content)

append_cons-ne-nil : (xs : List Bytes) (c : Bytes) (ys : List Bytes) → (xs ++ c ∷ ys) ≢ []
append_cons-ne-nil [] c ys e = cc
append_cons-ne-nil (x ∷ xs) c ys e = cc

join-cong :
    (p : Bytes) (ps qs : List Bytes) (sep : Bytes)
    → ps ≢ []
    → qs ≢ []
    → join ps sep ≡ join qs sep
    → join (p ∷ ps) sep ≡ join (p ∷ qs) sep
join-cong p ps qs sep h k e =
    join-cons p ps sep h ∙ ap (λ (t : Bytes). p ++ (sep ++ t)) e ∙ sym (join-cons p qs sep k)

-- Lines joined before the rest, or together with it.
join-join :
    (c : Bytes) (cur ys : List Bytes) (sep : Bytes)
    → join (join (c ∷ cur) sep ∷ ys) sep ≡ join (c ∷ (cur ++ ys)) sep
join-join c [] ys sep = unfold join in refl
join-join c (d ∷ cur) [] sep =
    unfold join in ap (λ (t : List Bytes). join (c ∷ d ∷ t) sep) (sym (append-nil cur))
join-join c (d ∷ cur) (y ∷ ys) sep =
    let rest = join-join d cur (y ∷ ys) sep in
    join-cons (join (c ∷ d ∷ cur) sep) (y ∷ ys) sep (λ e. cc)
    ∙ ap (λ (t : Bytes). t ++ (sep ++ join (y ∷ ys) sep)) (join-cons c (d ∷ cur) sep (λ e. cc))
    ∙ simp append_assoc (
        ap (λ (t : Bytes). c ++ (sep ++ t))
          (sym (join-cons (join (d ∷ cur) sep) (y ∷ ys) sep (λ e. cc)) ∙ rest))
    ∙ sym (join-cons c (d ∷ (cur ++ y ∷ ys)) sep (λ e. cc))

join-regroup :
    (xs : List Bytes) (c : Bytes) (cur ys : List Bytes) (sep : Bytes)
    → join (xs ++ join (c ∷ cur) sep ∷ ys) sep ≡ join (xs ++ c ∷ (cur ++ ys)) sep
join-regroup [] c cur ys sep = join-join c cur ys sep
join-regroup (x ∷ xs) c cur ys sep =
    join-cong x _ _ sep (append_cons-ne-nil xs _ ys) (append_cons-ne-nil xs c (cur ++ ys))
      (join-regroup xs c cur ys sep)

-- The text that a state has read, with the lines still to come.
abbrev spelled : SplitState → List Bytes → Bytes
spelled st ys = join (contents st.chunks ++ (st.current_lines ++ ys)) newline

contents-emit :
    (st : SplitState) (lines ys : List Bytes)
    → st.current_lines ≡ lines
    → join (contents (emit st) ++ ys) newline ≡ join (contents st.chunks ++ (lines ++ ys)) newline
unfolding emit
contents-emit st [] ys e = rw e
contents-emit st (c ∷ cur) ys e =
    rw (e, map-append, append_assoc) (join-regroup (contents st.chunks) c cur ys newline)

add_line-spelled :
    (line : Bytes) (st : SplitState) (ys : List Bytes)
    → spelled (add_line line st) ys ≡ spelled st (line ∷ ys)
unfolding add_line
add_line-spelled line st ys =
    ap (λ (t : List Bytes). join (contents st.chunks ++ t) newline)
      (append_assoc st.current_lines (line ∷ []) ys)

track_fence-spelled :
    (trimmed : Bytes) (st : SplitState) (ys : List Bytes)
    → spelled (track_fence trimmed st) ys ≡ spelled st ys
unfolding track_fence
track_fence-spelled trimmed st ys = ground arith

start_section-spelled :
    (s : MdSplitter) (line trimmed header name : Bytes) (st : SplitState) (ys : List Bytes)
    → s.trim_headers ≡ false
    → spelled (start_section s line trimmed header name st) ys ≡ spelled st (line ∷ ys)
unfolding start_section
start_section-spelled s line trimmed header name st ys kept =
    rw kept (contents-emit st st.current_lines (line ∷ ys) refl)

place_line-spelled :
    (s : MdSplitter) (line trimmed : Bytes) (found : Option (Bytes × Bytes)) (st : SplitState)
    (ys : List Bytes)
    → s.trim_headers ≡ false
    → spelled (place_line s line trimmed found st) ys ≡ spelled st (line ∷ ys)
unfolding place_line
place_line-spelled s line trimmed none st ys kept = add_line-spelled line st ys
place_line-spelled s line trimmed (some (header, name)) st ys kept =
    start_section-spelled s line trimmed header name st ys kept

step_line-spelled :
    (s : MdSplitter) (st : SplitState) (line : Bytes) (ys : List Bytes)
    → s.trim_headers ≡ false
    → spelled (step_line s st line) ys ≡ spelled st (line ∷ ys)
unfolding step_line
step_line-spelled s st line ys kept =
    let trimmed = trim_space line in
    let st' = track_fence trimmed st in
    let tracked = track_fence-spelled trimmed st (line ∷ ys) in
    let goal = λ (r : SplitState). spelled r ys ≡ spelled st (line ∷ ys) in
    if_ind goal (length line == 0) (λ _. add_line-spelled line st ys)
      λ _.
        if_ind goal st'.in_code_block (λ _. add_line-spelled line st' ys ∙ tracked)
          (λ _.
            place_line-spelled s line trimmed (find_header s.headers trimmed) st' ys kept ∙ tracked)

split_lines-spelled :
    (s : MdSplitter) (st : SplitState) (lines : List Bytes)
    → s.trim_headers ≡ false
    → spelled (split_lines s st lines) [] ≡ spelled st lines
unfolding split_lines
split_lines-spelled s st [] kept = refl
split_lines-spelled s st (line ∷ lines) kept =
    split_lines-spelled s (step_line s st line) lines kept ∙ step_line-spelled s st line lines kept

-- A splitter that keeps the header lines loses nothing: the contents of the sections, joined by
-- line feeds, are the text.
pub join-split_md :
    (s : MdSplitter) (text : Bytes)
    → s.trim_headers ≡ false
    → join (contents (split_md s text)) newline ≡ text
unfolding split_md
join-split_md s text kept =
    let st = split_lines s initial (split text newline) in
    ap (λ (t : List Bytes). join t newline) (sym (append-nil (contents (emit st))))
    ∙ contents-emit st st.current_lines [] refl
    ∙ split_lines-spelled s initial (split text newline) kept
    ∙ join-split text 10 []
