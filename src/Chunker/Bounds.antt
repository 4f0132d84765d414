-- ===== src/Chunker/Bounds.antt =====
-- The size of the chunks of a `CharChunker`.
use fileprocessor.Base.{
  ℕ, ◌+◌, ◌≤◌, ◌≡◌, ◌||◌, List, [], ◌++◌, arith, ◌==◌, if_ind, Bytes, length, length-append,
  All-map,
}
use fileprocessor.Cascade.{separators}
use fileprocessor.Cascade.Bounds.{Within, cascade-Within, separators-IsSeparator}
use fileprocessor.ForceSplit.Windows.{force_split_bounded}
use fileprocessor.Merging.Bounds.{max_chunk, size-le-max_chunk, merge_loop-Within}
use fileprocessor.Chunker.{
  write_part, merge_parts, recursive_split, split_chars, chunk, CharChunker,
}

write_part_adds :
    (sep cur p : Bytes) → length (write_part sep cur p) ≤ length cur + length sep + length p
unfolding write_part
write_part_adds sep cur p = ground (arith, length-append cur p, length-append (cur ++ p) sep)

pub write_part_first : (sep p : Bytes) → write_part sep [] p ≡ p
unfolding write_part
write_part_first sep p = ground arith

merge_parts-Within :
    (parts : List Bytes) (sep : Bytes) (size overlap : ℕ)
    → length sep ≤ 2
    → Within size parts
    → Within (max_chunk size overlap) (merge_parts parts sep size overlap)
merge_parts-Within parts sep size overlap short h =
    unfold merge_parts in
    merge_loop-Within (write_part sep) sep (write_part_first sep) (write_part_adds sep) short size
      overlap parts [] h (ground arith)

recursive_split-Within :
    (text : Bytes) (size overlap : ℕ)
    → Within (max_chunk size overlap) (recursive_split text separators size overlap)
unfolding recursive_split
recursive_split-Within text size overlap =
    cascade-Within _ _ size (max_chunk size overlap) (size-le-max_chunk size overlap)
      (λ parts sep. merge_parts-Within parts sep size overlap)
      (λ t.
        All-map _ _ (λ c h. omega (arith, h, size-le-max_chunk size overlap)) _
          (force_split_bounded t size overlap))
      separators separators-IsSeparator text

split_chars-Within :
    (text : Bytes) (size overlap : ℕ)
    → Within (max_chunk size overlap) (split_chars text size overlap)
unfolding split_chars
split_chars-Within text size overlap =
    if_ind (Within (max_chunk size overlap)) (length text == 0 || size == 0) (λ _. tt)
      (λ _. recursive_split-Within text size overlap)

-- No chunk that `Chunk` returns is longer than the chunk size, or, if the chunker has an overlap,
-- than the chunk size, the overlap and four bytes more.
pub chunk_bounded :
    (c : CharChunker) (content : Bytes)
    → Within (max_chunk c.opts.chunk_size c.opts.overlap_size) (chunk c content)
unfolding chunk
chunk_bounded c content = split_chars-Within content c.opts.chunk_size c.opts.overlap_size
