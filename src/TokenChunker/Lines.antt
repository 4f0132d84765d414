-- ===== src/TokenChunker/Lines.antt =====
-- The chunks of the token chunker are made of whole lines.
use fileprocessor.Base.{
  ℕ, ◌<◌, ◌≡◌, refl, sym, ap, ◌∙◌, ◌⊎◌, inl, inr, true, false, some, List, [], ◌∷◌, ◌++◌,
  append-nil, append_assoc, arith, ltb, ◌==◌, if_ind, ltb→lt, Bool-cases, Bytes, codes, ℤ, length,
  flatten, snoc-append, All,
}
use fileprocessor.Text.{split, join}
use fileprocessor.Text.Laws.{join-split}
use fileprocessor.Chunker.{ChunkOptions}
use fileprocessor.TokenChunker.{above, overlap_tail, with_sep, is_full, chunk_loop, chunk_tokens}

flatten-with_sep : (lines : List Bytes) → flatten (with_sep lines) ≡ join lines (codes "\n")
unfolding with_sep join
flatten-with_sep [] = refl
flatten-with_sep (line ∷ []) = append-nil line
flatten-with_sep (line ∷ next ∷ lines) =
    rw (flatten-with_sep (next ∷ lines)) (snoc-append line 10 (join (next ∷ lines) (codes "\n")))

overlap_tail_none : (src : Bytes) (tokenize : Bytes → ℤ) → overlap_tail src 0 tokenize ≡ []
unfolding overlap_tail
overlap_tail_none src tokenize = ground arith

is_full_nonempty :
    (tokenize : Bytes → ℤ) (size : ℕ) (cur line : Bytes)
    → is_full tokenize size cur line ≡ true
    → 0 < length cur
unfolding is_full
is_full_nonempty tokenize size cur line full = ground (arith, full)

is_full_cases :
    (tokenize : Bytes → ℤ) (size : ℕ) (cur line : Bytes)
    → is_full tokenize size cur line ≡ false
    → (above (tokenize (cur ++ line)) size ≡ false) ⊎ (cur ≡ [])
unfolding is_full
is_full_cases tokenize size [] line fits = inr refl
is_full_cases tokenize size (b ∷ cur) line fits = inl (ground (arith, fits))

-- A chunk of at most the chunk size in tokens, or one of which `P` holds.
abbrev pub FitsOr : (Bytes → ℤ) → ℕ → (Bytes → Type 0) → Bytes → Type 0
FitsOr tokenize size P ch = (above (tokenize ch) size ≡ false) ⊎ P ch

module _ (tokenize : Bytes → ℤ) (opts : ChunkOptions) (none_kept : opts.overlap_size ≡ 0) where
  chunk_loop_full :
      (cur line : Bytes) (lines : List Bytes)
      → is_full tokenize opts.chunk_size cur line ≡ true
      → chunk_loop tokenize opts cur (line ∷ lines) ≡ cur ∷ chunk_loop tokenize opts line lines
  unfolding chunk_loop
  chunk_loop_full cur line lines full =
      let no_tail =
        ap (λ (n : ℕ). overlap_tail cur n tokenize) none_kept ∙ overlap_tail_none cur tokenize in
      rw (full, no_tail) refl

  chunk_loop_fits :
      (cur line : Bytes) (lines : List Bytes)
      → is_full tokenize opts.chunk_size cur line ≡ false
      → chunk_loop tokenize opts cur (line ∷ lines) ≡ chunk_loop tokenize opts (cur ++ line) lines
  unfolding chunk_loop
  chunk_loop_fits cur line lines fits = rw fits refl

  chunk_loop_end : (cur : Bytes) → flatten (chunk_loop tokenize opts cur []) ≡ cur
  unfolding chunk_loop
  chunk_loop_end [] = refl
  chunk_loop_end (b ∷ cur) =
      if_ind (λ (cs : List Bytes). flatten cs ≡ b ∷ cur) (ltb 0 (length (b ∷ cur)))
        (λ _. append-nil (b ∷ cur)) (λ empty. ground (arith, empty))

  flatten-chunk_loop :
      (cur : Bytes) (lines : List Bytes)
      → flatten (chunk_loop tokenize opts cur lines) ≡ cur ++ flatten lines
  flatten-chunk_loop cur [] = chunk_loop_end cur ∙ sym (append-nil cur)
  flatten-chunk_loop cur (line ∷ lines) =
      elim (Bool-cases (is_full tokenize opts.chunk_size cur line)) [
        | inl full ↦
            rw (chunk_loop_full cur line lines full)
              (ap (λ (t : Bytes). cur ++ t) (flatten-chunk_loop line lines))
        | inr fits ↦
            rw (chunk_loop_fits cur line lines fits)
              (flatten-chunk_loop (cur ++ line) lines ∙ append_assoc cur line (flatten lines))
      ]

  -- Without overlap the chunks of the token chunker put together are the content: no byte is lost,
  -- added or moved.
  pub flatten-chunk_tokens :
      (content : Bytes) → flatten (chunk_tokens (some tokenize) opts content) ≡ content
  unfolding chunk_tokens
  flatten-chunk_tokens [] = refl
  flatten-chunk_tokens (b ∷ content) =
      if_ind (λ (cs : List Bytes). flatten cs ≡ b ∷ content) (length (b ∷ content) == 0)
        (λ empty. ground (arith, empty))
        (λ _.
          flatten-chunk_loop [] (with_sep (split (b ∷ content) (codes "\n")))
          ∙ flatten-with_sep (split (b ∷ content) (codes "\n"))
          ∙ join-split (b ∷ content) 10 [])

  chunk_loop-FitsOr :
      (P : Bytes → Type 0) (cur : Bytes) (lines : List Bytes)
      → (0 < length cur → FitsOr tokenize opts.chunk_size P cur)
      → All P lines
      → All (FitsOr tokenize opts.chunk_size P) (chunk_loop tokenize opts cur lines)
  unfolding chunk_loop
  chunk_loop-FitsOr P cur [] small h =
      if_ind (All (FitsOr tokenize opts.chunk_size P)) (ltb 0 (length cur))
        (λ some_held. (small (ltb→lt 0 (length cur) some_held), tt)) (λ _. tt)
  chunk_loop-FitsOr P cur (line ∷ lines) small (p, h) =
      elim (Bool-cases (is_full tokenize opts.chunk_size cur line)) [
        | inl full ↦ rw (chunk_loop_full cur line lines full) (
          small (is_full_nonempty tokenize opts.chunk_size cur line full),
          chunk_loop-FitsOr P line lines (λ _. inr p) h,
        )
        | inr fits ↦ rw (chunk_loop_fits cur line lines fits) (
            chunk_loop-FitsOr P (cur ++ line) lines
              (λ _. elim (is_full_cases tokenize opts.chunk_size cur line fits) [
                | inl low ↦ inl low
                | inr empty ↦ inr (rw empty p)
              ])
              h)
      ]

  -- Without overlap each chunk has at most the chunk size in tokens or is a single line: it has
  -- every property that all the lines of the content, with their line feeds, have.
  pub chunk_tokens-FitsOr :
      (P : Bytes → Type 0) (content : Bytes)
      → All P (with_sep (split content (codes "\n")))
      → All (FitsOr tokenize opts.chunk_size P) (chunk_tokens (some tokenize) opts content)
  unfolding chunk_tokens
  chunk_tokens-FitsOr P content h =
      if_ind (All (FitsOr tokenize opts.chunk_size P)) (length content == 0) (λ _. tt)
        (λ _.
          chunk_loop-FitsOr P [] (with_sep (split content (codes "\n")))
            (λ pos_length. ground (arith, pos_length)) h)
