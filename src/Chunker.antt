-- ===== src/Chunker.antt =====
-- chunker.go: the chunkers that a caller can choose, but for the token chunker (TokenChunker).
pub mod Bounds
pub mod Ink
pub mod Merge
use fileprocessor.Base.{
  ℕ, ◌+◌, ◌-◌, ◌≡◌, refl, List, [], ◌∷◌, ◌++◌, ◌&&◌, ◌||◌, not, Bytes, codes, ltb, ◌==◌,
  if◌then◌else◌, length, drop, ℤ, pos, negsuc, is_nonpos, is_neg, to_ℕ,
}
use fileprocessor.Cascade.{cascade, separators}
use fileprocessor.ForceSplit.{force_split}
use fileprocessor.Merging.{merge_loop}

pub record ChunkOptions : Type 0 where
  pub chunk_size : ℕ
  pub overlap_size : ℕ

pub record CharChunker : Type 0 where
  pub opts : ChunkOptions

unfoldable new_char_chunker : ℤ → ℤ → CharChunker
new_char_chunker size overlap = record {
  opts = record {
    chunk_size = if is_nonpos size then 1000 else to_ℕ size;
    overlap_size = if is_neg overlap then 200 else to_ℕ overlap;
  };
}

-- What a round of `mergeParts` writes, behind its flush: the part, and a separator behind it unless the part
-- is all that the builder holds.
unfoldable pub write_part : Bytes → Bytes → Bytes → Bytes
write_part sep cur p =
    let cur' = cur ++ p in
    if ltb 0 (length cur') && not (length cur' == length p) then cur' ++ sep else cur'

unfoldable pub merge_parts : List Bytes → Bytes → ℕ → ℕ → List Bytes
merge_parts parts sep size overlap = merge_loop (write_part sep) sep size overlap parts []

unfoldable pub recursive_split : Bytes → List Bytes → ℕ → ℕ → List Bytes
recursive_split text seps size overlap =
    cascade (λ parts sep. merge_parts parts sep size overlap) (λ t. force_split t size overlap) size
      seps text

unfoldable pub split_chars : Bytes → ℕ → ℕ → List Bytes
split_chars text chunk_size overlap =
    if length text == 0 || chunk_size == 0
    then []
    else recursive_split text separators chunk_size overlap

-- `CharChunker.Chunk`.
unfoldable pub chunk : CharChunker → Bytes → List Bytes
chunk c content = split_chars content c.opts.chunk_size c.opts.overlap_size
