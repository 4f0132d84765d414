-- ===== src/Tests/Chunking.antt =====
-- The chunkers of chunker.go on small texts.
use fileprocessor.Base.{
  ◌≤◌, ◌≡◌, refl, ◌⊎◌, false, some, [], ◌∷◌, ◌++◌, reverse, arith, leb, ◌==◌, if◌then◌else◌, Bytes,
  codes, ℤ, pos, length, take, drop, flatten, All,
}
use fileprocessor.Text.{join, split}
use fileprocessor.Text.Ink.{ink}
use fileprocessor.Merging.Bounds.{max_chunk}
use fileprocessor.Cascade.Bounds.{Within}
use fileprocessor.ForceSplit.{force_split, window_step, force_split_step}
use fileprocessor.ForceSplit.Windows.{stitch, force_split_covers}
use fileprocessor.Chunker as Chars
use fileprocessor.Chunker.{CharChunker, ChunkOptions, chunk}
use fileprocessor.Chunker.Ink.{chunk-ink}
use fileprocessor.Chunker.Bounds.{chunk_bounded}
use fileprocessor.Chunker.Merge.{merge_parts_two}
use fileprocessor.TokenChunker.{above, with_sep, chunk_tokens, overlap_tail, runes}
use fileprocessor.TokenChunker.Lines.{FitsOr, flatten-chunk_tokens, chunk_tokens-FitsOr}
use fileprocessor.TokenChunker.Overlap.{IsTested, NoShorter, overlap_tail_shortest}

abbrev sentence : Bytes
sentence = codes "One fish. Two fish.\nRed fish, blue fish."

abbrev char_chunker : CharChunker
char_chunker = record { opts = record { chunk_size = 12; overlap_size = 0 } }

chunk-ink_example : ink (flatten (chunk char_chunker sentence)) ≡ ink sentence
chunk-ink_example = chunk-ink char_chunker sentence (omega arith) refl

chunk_bounded_example : Within (max_chunk 12 0) (chunk char_chunker sentence)
chunk_bounded_example = chunk_bounded char_chunker sentence

merge_parts_two_example :
    Chars.merge_parts (codes "hello" ∷ codes "world" ∷ []) (codes " ") 20 0
    ≡ codes "helloworld " ∷ []
merge_parts_two_example =
    merge_parts_two (codes "hello") (codes "world") (codes " ") 20 0 (omega arith) (omega arith)
      (omega arith)

force_split_step_example : force_split (codes "abcdefg") 4 1 ≡ (
    if length (codes "abcdefg") == 0
    then []
    else if leb (length (codes "abcdefg")) 4
    then codes "abcdefg" ∷ []
    else take 4 (codes "abcdefg") ∷ force_split (drop (window_step 4 1) (codes "abcdefg")) 4 1)
force_split_step_example = force_split_step (codes "abcdefg") 4 1 (omega arith)

force_split_covers_example :
    take 1 (codes "abcdefg") ++ stitch 1 (force_split (codes "abcdefg") 4 1) ≡ codes "abcdefg"
force_split_covers_example = force_split_covers (codes "abcdefg") 4 1 (omega arith)

-- One token for each byte.
abbrev byte_tokens : Bytes → ℤ
byte_tokens s = pos (length s)

abbrev token_options : ChunkOptions
token_options = record { chunk_size = 6; overlap_size = 0 }

abbrev some_lines : Bytes
some_lines = codes "ab\ncd\nefg\nh"

flatten-chunk_tokens_example :
    flatten (chunk_tokens (some byte_tokens) token_options some_lines) ≡ some_lines
flatten-chunk_tokens_example = flatten-chunk_tokens byte_tokens token_options refl some_lines

abbrev Short : Bytes → Type 0
Short l = length l ≤ 4

chunk_tokens-FitsOr_example :
    All (FitsOr byte_tokens 6 Short) (chunk_tokens (some byte_tokens) token_options some_lines)
unfolding with_sep split fileprocessor.Text.split_from fileprocessor.Text.has_prefix
    fileprocessor.Text.cons_head
chunk_tokens-FitsOr_example =
    chunk_tokens-FitsOr byte_tokens token_options refl Short some_lines
      (omega arith, (omega arith, (omega arith, (omega arith, tt))))

overlap_tail_shortest_example :
    (((above (byte_tokens (overlap_tail (codes "hello world") 50 byte_tokens)) 50 ≡ false)
        × IsTested byte_tokens 50
            (overlap_tail (codes "hello world") 50 byte_tokens)
            []
            (reverse (runes (codes "hello world"))))
      ⊎ (overlap_tail (codes "hello world") 50 byte_tokens ≡ codes "hello world"))
    × NoShorter byte_tokens 50
        (length (overlap_tail (codes "hello world") 50 byte_tokens))
        []
        (reverse (runes (codes "hello world")))
overlap_tail_shortest_example =
    overlap_tail_shortest byte_tokens 50 (codes "hello world") (omega arith) (omega arith)
