-- ===== src/Merging/Bounds.antt =====
-- The size of the chunks that the merge loop emits.
use fileprocessor.Base.{
  ℕ, zero, suc, ◌+◌, ◌-◌, ◌≤◌, ◌≡◌, false, List, [], ◌∷◌, ◌&&◌, Bytes, ltb, ◌==◌, if◌then◌else◌,
  length, drop, length-append, length-drop, if_ind, arith,
}
use fileprocessor.Cascade.Bounds.{Within}
use fileprocessor.Merging.{carry_over, merge_loop}

-- The longest chunk: with an overlap, a flush leaves up to `overlap` bytes and a separator in the
-- builder, and the next part and a second separator join them unchecked.
abbrev pub max_chunk : ℕ → ℕ → ℕ
max_chunk size overlap = if overlap == 0 then size else size + overlap + 4

pub size-le-max_chunk : (size overlap : ℕ) → size ≤ max_chunk size overlap
size-le-max_chunk size overlap = ground arith

carry_over_short :
    (sep cur : Bytes) (overlap : ℕ)
    → length sep ≤ 2
    → length (carry_over sep overlap cur) ≤ overlap + 2
unfolding carry_over
carry_over_short sep cur overlap short = ground (
  arith,
  length-append (drop (length cur - overlap) cur) sep,
  length-drop (length cur - overlap) cur,
)

-- With overlap 0 a flush leaves nothing.
pub carry_over_none : (sep cur : Bytes) → carry_over sep 0 cur ≡ []
unfolding carry_over
carry_over_none sep cur = ground arith

module _ (write : Bytes → Bytes → Bytes) (sep : Bytes) (write_first : (p : Bytes) → write [] p ≡ p)
    (write_adds : (cur p : Bytes) → length (write cur p) ≤ length cur + length sep + length p)
    (short : length sep ≤ 2) where
  -- What the builder holds after a round with a flush.
  flushed_fits :
      (cur p : Bytes) (size overlap : ℕ)
      → length p ≤ size
      → length (write (carry_over sep overlap cur) p) ≤ max_chunk size overlap
  flushed_fits cur p size zero fits = rw (carry_over_none sep cur, write_first p) (ground arith)
  flushed_fits cur p size (suc overlap) fits = ground (
    arith,
    write_adds (carry_over sep (suc overlap) cur) p,
    carry_over_short sep cur (suc overlap) short,
  )

  grown_fits :
      (cur p : Bytes) (size overlap : ℕ)
      → length p ≤ size
      → (ltb 0 (length cur) && ltb size (length cur + length sep + length p)) ≡ false
      → length (write cur p) ≤ max_chunk size overlap
  grown_fits [] p size overlap fits h = rw (write_first p) (ground arith)
  grown_fits (c ∷ cur) p size overlap fits h = ground (arith, write_adds (c ∷ cur) p)

  pub merge_loop-Within :
      (size overlap : ℕ) (ps : List Bytes) (cur : Bytes)
      → Within size ps
      → length cur ≤ max_chunk size overlap
      → Within (max_chunk size overlap) (merge_loop write sep size overlap ps cur)
  unfolding merge_loop
  merge_loop-Within size overlap [] cur h room =
      if_ind (Within (max_chunk size overlap)) (ltb 0 (length cur)) (λ _. (room, tt)) (λ _. tt)
  merge_loop-Within size overlap (p ∷ ps) cur (fits, h) room =
      if_ind (Within (max_chunk size overlap))
        (ltb 0 (length cur) && ltb size (length cur + length sep + length p))
        (λ _. (room, merge_loop-Within size overlap ps _ h (flushed_fits cur p size overlap fits)))
        (λ full.
          merge_loop-Within size overlap ps (write cur p) h
            (grown_fits cur p size overlap fits full))
