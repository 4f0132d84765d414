-- ===== src/MdSplitter/Headers.antt =====
-- The headers that a line matches, and the records of the headers that a line stands under.
use fileprocessor.Base.{
  ℕ, ◌<◌, ◌≡◌, refl, sym, ◌∙◌, inl, inr, true, Option, none, some, List, [], ◌∷◌, arith, leb, ◌==◌,
  if_ind, Bool-cases, Option-cases, Bytes, bytes_eq_sound, bytes_eq_refl, length, All, All-map,
}
use mathlib.Core.Path.{subst}
use fileprocessor.Text.{has_prefix, trim_space}
use fileprocessor.MdSplitter.{
  MdSplitter, MetaRecord, SplitState, StringMap, is_hashes, find_bad_header, is_header_line,
  find_header, pop_records, start_section, place_line, step_line, split_lines, track_fence,
  add_line, lookup, delete,
}

-- Two headers of hash marks that one line matches are the same.
is_header_line_unique :
    (trimmed h k : Bytes)
    → is_hashes h ≡ true
    → is_hashes k ≡ true
    → is_header_line trimmed h ≡ true
    → is_header_line trimmed k ≡ true
    → h ≡ k
unfolding is_header_line is_hashes has_prefix
is_header_line_unique t [] [] p q a b = refl
is_header_line_unique [] (x ∷ h) k p q a b = ground arith
is_header_line_unique [] [] (y ∷ k) p q a b = ground arith
is_header_line_unique (c ∷ t) [] (y ∷ k) p q a b = ground arith
is_header_line_unique (c ∷ t) (x ∷ h) [] p q a b = ground arith
is_header_line_unique (c ∷ t) (x ∷ h) (y ∷ k) p q a b = ground (arith, is_header_line_unique t h k)

module _ (trimmed : Bytes) where
  -- The header that is found is a key of the map, with its name, and the line matches it.
  find_header_sound :
      (hs : StringMap) (h name : Bytes)
      → find_header hs trimmed ≡ some (h, name)
      → (lookup h hs ≡ some name) × (is_header_line trimmed h ≡ true)
  unfolding find_header lookup
  find_header_sound [] h name e = cc
  find_header_sound ((j, v) ∷ hs) h name e = elim (Bool-cases (is_header_line trimmed j)) [
    | inl found ↦ ground (arith, bytes_eq_refl h)
    | inr other ↦
        let (at_h, line) = find_header_sound hs h name (ground arith) in
        ground (arith, bytes_eq_sound j h)
  ]

  lookup-is_hashes :
      (hs : StringMap) (h name : Bytes)
      → find_bad_header hs ≡ none
      → lookup h hs ≡ some name
      → is_hashes h ≡ true
  unfolding find_bad_header lookup
  lookup-is_hashes [] h name good e = cc
  lookup-is_hashes ((j, v) ∷ hs) h name good e =
      ground (arith, bytes_eq_sound j h, lookup-is_hashes hs h name)

  find_header_complete :
      (hs : StringMap) (h name : Bytes)
      → find_bad_header hs ≡ none
      → is_hashes h ≡ true
      → lookup h hs ≡ some name
      → is_header_line trimmed h ≡ true
      → find_header hs trimmed ≡ some (h, name)
  unfolding find_bad_header find_header lookup
  find_header_complete [] h name good hashes e line = cc
  find_header_complete ((j, v) ∷ hs) h name good hashes e line = ground (
    arith,
    bytes_eq_sound j h,
    bytes_eq_refl h,
    is_header_line_unique trimmed j h,
    find_header_complete hs h name,
  )

  -- The order in which the map of headers is walked does not matter: two enumerations of one map
  -- whose keys are hash marks find the same header, or both none.
  find_header_order :
      (xs ys : StringMap)
      → find_bad_header xs ≡ none
      → find_bad_header ys ≡ none
      → ((h : Bytes) → lookup h xs ≡ lookup h ys)
      → find_header xs trimmed ≡ find_header ys trimmed
  find_header_order xs ys good_x good_y same = elim (Option-cases (find_header xs trimmed)) [
    | inr ((h, name), e) ↦
        let (at_h, line) = find_header_sound xs h name e in
        e
        ∙ sym (
            find_header_complete ys h name good_y (lookup-is_hashes xs h name good_x at_h)
              (sym (same h) ∙ at_h) line)
    | inl nothing ↦ elim (Option-cases (find_header ys trimmed)) [
      | inl too ↦ nothing ∙ sym too
      | inr ((h, name), e) ↦
          let (at_h, line) = find_header_sound ys h name e in
          find_header_complete xs h name good_x (lookup-is_hashes ys h name good_y at_h)
            (same h ∙ at_h) line
          ∙ sym e
    ]
  ]

-- Each record stands under records of smaller levels.
abbrev pub Nested : List MetaRecord → Type 0
Nested [] = Unit
Nested (r ∷ rs) = All (λ (q : MetaRecord). q.level < r.level) rs × Nested rs

pop_records-Nested :
    (new_level : ℕ) (rs : List MetaRecord) (m : StringMap)
    → Nested rs
    → All (λ (q : MetaRecord). q.level < new_level) (pop_records new_level rs m).0
      × Nested (pop_records new_level rs m).0
unfolding pop_records
pop_records-Nested new_level [] m h = (tt, tt)
pop_records-Nested new_level (r ∷ rs) m (below, h) =
    if_ind
      (λ (p : List MetaRecord × StringMap).
        All (λ (q : MetaRecord). q.level < new_level) p.0 × Nested p.0)
      (leb new_level r.level) (λ _. pop_records-Nested new_level rs (delete r.name m) h)
      (λ lower. ((ground arith, All-map _ _ (λ q less. ground arith) rs below), (below, h)))

place_line-Nested :
    (s : MdSplitter) (line trimmed : Bytes) (found : Option (Bytes × Bytes)) (st : SplitState)
    → Nested st.recorded_meta_list
    → Nested (place_line s line trimmed found st).recorded_meta_list
unfolding place_line add_line start_section
place_line-Nested s line trimmed none st h = h
place_line-Nested s line trimmed (some (header, name)) st h =
    pop_records-Nested (length header) st.recorded_meta_list st.recorded_meta_map h

track_fence-records :
    (trimmed : Bytes) (st : SplitState)
    → (track_fence trimmed st).recorded_meta_list ≡ st.recorded_meta_list
unfolding track_fence
track_fence-records trimmed st = ground arith

step_line-Nested :
    (s : MdSplitter) (st : SplitState) (line : Bytes)
    → Nested st.recorded_meta_list
    → Nested (step_line s st line).recorded_meta_list
unfolding step_line
step_line-Nested s st line h =
    let trimmed = trim_space line in
    let st' = track_fence trimmed st in
    let goal = λ (r : SplitState). Nested r.recorded_meta_list in
    let kept : Nested st'.recorded_meta_list =
      subst Nested (sym (track_fence-records trimmed st)) h in
    if_ind goal (length line == 0) (λ _. unfold add_line in h)
      λ _.
        if_ind goal st'.in_code_block (λ _. unfold add_line in kept)
          (λ _. place_line-Nested s line trimmed (find_header s.headers trimmed) st' kept)

-- If the recorded headers are nested, that is, each has a larger level than all those recorded
-- before it, then they are nested after any lines.
pub split_lines-Nested :
    (s : MdSplitter) (lines : List Bytes) (st : SplitState)
    → Nested st.recorded_meta_list
    → Nested (split_lines s st lines).recorded_meta_list
unfolding split_lines
split_lines-Nested s [] st h = h
split_lines-Nested s (line ∷ lines) st h =
    split_lines-Nested s lines (step_line s st line) (step_line-Nested s st line h)
