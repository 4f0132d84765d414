-- ===== src/Chunker/Ink.antt =====
-- The content of the chunks of a `CharChunker` without overlap.
use fileprocessor.Base.{
  ℕ, ◌<◌, ◌≡◌, refl, sym, ap, ◌∙◌, inl, ◌&&◌, ◌||◌, not, List, [], ◌∷◌, ◌++◌, append-nil, arith,
  ltb, ◌==◌, if_ind, Bytes, length, flatten,
}
use fileprocessor.Text.Ink.{ink, ink_nil, ink-append}
use fileprocessor.Cascade.{separators}
use fileprocessor.Cascade.Bounds.{separators-IsSeparator}
use fileprocessor.Cascade.Ink.{ink_all, ink-flatten, cascade-ink}
use fileprocessor.ForceSplit.{force_split}
use fileprocessor.ForceSplit.Windows.{flatten-force_split}
use fileprocessor.Merging.Ink.{merge_loop-ink}
use fileprocessor.Chunker.{
  CharChunker, write_part, merge_parts, recursive_split, split_chars, chunk,
}
use fileprocessor.Chunker.Bounds.{write_part_first}

write_part-ink : (sep cur p : Bytes) → ink sep ≡ [] → ink (write_part sep cur p) ≡ ink cur ++ ink p
unfolding write_part
write_part-ink sep cur p blank =
    if_ind (λ (t : Bytes). ink t ≡ ink cur ++ ink p)
      (ltb 0 (length (cur ++ p)) && not (length (cur ++ p) == length p))
      (λ _.
        ink-append (cur ++ p) sep
        ∙ ap (λ (t : Bytes). ink (cur ++ p) ++ t) blank
        ∙ append-nil (ink (cur ++ p))
        ∙ ink-append cur p)
      (λ _. ink-append cur p)

merge_parts-ink :
    (size : ℕ) (parts : List Bytes) (sep : Bytes)
    → ink sep ≡ []
    → ink_all (merge_parts parts sep size 0) ≡ ink_all parts
unfolding merge_parts
merge_parts-ink size parts sep blank =
    merge_loop-ink (write_part sep) sep (write_part_first sep)
      (λ cur p. write_part-ink sep cur p blank) size parts []
    ∙ ap (λ (t : Bytes). t ++ ink_all parts) ink_nil

recursive_split-ink :
    (text : Bytes) (size : ℕ)
    → 0 < size
    → ink_all (recursive_split text separators size 0) ≡ ink text
unfolding recursive_split
recursive_split-ink text size h =
    cascade-ink _ _ size (merge_parts-ink size)
      (λ t.
        sym (ink-flatten (force_split t size 0))
        ∙ ap ink (flatten-force_split t size 0 h (inl refl)))
      separators separators-IsSeparator text

split_chars-ink :
    (text : Bytes) (size : ℕ) → 0 < size → ink_all (split_chars text size 0) ≡ ink text
unfolding split_chars
split_chars-ink [] size h = sym ink_nil
split_chars-ink (c ∷ text) size h =
    if_ind (λ (cs : List Bytes). ink_all cs ≡ ink (c ∷ text)) (length (c ∷ text) == 0 || size == 0)
      (λ empty. absurd (ground arith)) (λ _. recursive_split-ink (c ∷ text) size h)

-- A chunker of positive size without overlap keeps the content: the chunks, one after the other,
-- have the visible ASCII characters of the text, in order and each once, but for the punctuation that it
-- splits at.
pub chunk-ink :
    (c : CharChunker) (content : Bytes)
    → 0 < c.opts.chunk_size
    → c.opts.overlap_size ≡ 0
    → ink (flatten (chunk c content)) ≡ ink content
unfolding chunk
chunk-ink c content h none_kept =
    ink-flatten (split_chars content c.opts.chunk_size c.opts.overlap_size)
    ∙ ap (λ (o : ℕ). ink_all (split_chars content c.opts.chunk_size o)) none_kept
    ∙ split_chars-ink content c.opts.chunk_size h
