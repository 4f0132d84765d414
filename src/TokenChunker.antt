-- ===== src/TokenChunker.antt =====
-- chunker.go: the token chunker, whose tokenizer the caller gives.
pub mod Lines
pub mod Overlap
use fileprocessor.Base.{
  ℕ, zero, suc, ◌-◌, ◌≡◌, refl, Bool, true, false, ◌&&◌, ◌||◌, not, Option, none, some, List, [],
  ◌∷◌, ◌++◌, reverse, ltb, leb, ◌==◌, if◌then◌else◌, Bytes, codes, ℤ, is_nonpos, is_neg, to_ℕ, pos,
  negsuc, length, take,
}
use fileprocessor.Text.{split}
use fileprocessor.Chunker.{ChunkOptions}

-- A count that is negative exceeds nothing.
unfoldable pub above : ℤ → ℕ → Bool
above (pos n) m = ltb m n
above (negsuc n) m = false

-- The tokenizer is `none` where it is nil.
pub record TokenChunker : Type 0 where
  pub opts : ChunkOptions
  pub tokenize : Option (Bytes → ℤ)

unfoldable new_token_chunker : ℤ → ℤ → Option (Bytes → ℤ) → TokenChunker
new_token_chunker size overlap tokenize = record {
  opts = record {
    chunk_size = if is_nonpos size then 256 else to_ℕ size;
    overlap_size = if is_neg overlap then 50 else to_ℕ overlap;
  };
  tokenize = tokenize;
}

-- A byte that continues a rune, between the bounds that the first byte sets.
unfoldable pub is_between : ℕ → ℕ → ℕ → Bool
is_between low high b = leb low b && leb b high

-- The bounds of the second byte of a rune, by its first.
unfoldable pub second_low : ℕ → ℕ
second_low a = if a == 0xe0 then 0xa0 else if a == 0xf0 then 0x90 else 0x80

unfoldable pub second_high : ℕ → ℕ
second_high a = if a == 0xed then 0x9f else if a == 0xf4 then 0x8f else 0xbf

-- The number of bytes of the rune that a first byte announces, `0` where no rune starts with it.
unfoldable pub rune_length : ℕ → ℕ
rune_length a =
    if ltb a 0x80
    then 1
    else if is_between 0xc2 0xdf a
    then 2
    else if is_between 0xe0 0xef a
    then 3
    else if is_between 0xf0 0xf4 a
    then 4
    else 0

unfoldable pub continues : ℕ → Bytes → Bool
unfolding is_between
continues zero s = true
continues (suc n) [] = false
continues (suc n) (b ∷ s) = is_between 0x80 0xbf b && continues n s

-- The number of bytes of the rune at the front of a string, `0` where they are not the encoding of
-- one.
unfoldable pub rune_width : Bytes → ℕ
unfolding is_between second_low second_high rune_length continues
rune_width [] = 0
rune_width (a ∷ []) = if ltb a 0x80 then 1 else 0
rune_width (a ∷ b ∷ s) =
    if rune_length a == 1
    then 1
    else if ltb 1 (rune_length a)
        && is_between (second_low a) (second_high a) b
        && continues (rune_length a - 2) s
    then rune_length a
    else 0

-- `[]rune(s)`, each rune by the bytes that `string` gives for it: a byte that is not part of the
-- encoding of a rune becomes U+FFFD. The number counts the bytes still to be passed over.
unfoldable pub runes_from : ℕ → Bytes → List Bytes
unfolding rune_width
runes_from k [] = []
runes_from (suc k) (b ∷ s) = runes_from k s
runes_from zero (b ∷ s) =
    let width = rune_width (b ∷ s) in
    (if width == 0 then 0xef ∷ 0xbf ∷ 0xbd ∷ [] else take width (b ∷ s)) ∷ runes_from (width - 1) s

unfoldable pub runes : Bytes → List Bytes
unfolding runes_from
runes s = runes_from 0 s

-- The loop of `overlapTail`, over the runes from the last one on; `suffix` is the string of those
-- that were passed.
unfoldable pub tail_loop : (Bytes → ℤ) → ℕ → Bytes → Bytes → List Bytes → Bytes
tail_loop tokenize max_tokens src suffix [] = src
tail_loop tokenize max_tokens src suffix (r ∷ rs) =
    let rest = tail_loop tokenize max_tokens src (r ++ suffix) rs in
    if above (tokenize (r ++ suffix)) max_tokens then rest else r ++ suffix

unfoldable pub overlap_tail : Bytes → ℕ → (Bytes → ℤ) → Bytes
unfolding tail_loop
overlap_tail src max_tokens tokenize =
    if length src == 0 || max_tokens == 0
    then []
    else tail_loop tokenize max_tokens src [] (reverse (runes src))

-- The lines of a text, each but the last with its line feed.
unfoldable pub with_sep : List Bytes → List Bytes
with_sep [] = []
with_sep (line ∷ []) = line ∷ []
with_sep (line ∷ next ∷ lines) = (line ++ codes "\n") ∷ with_sep (next ∷ lines)

-- The test under which a round of the loop ends the chunk that the builder holds.
unfoldable pub is_full : (Bytes → ℤ) → ℕ → Bytes → Bytes → Bool
is_full tokenize size cur line =
    not (length (cur ++ line) == 0) && above (tokenize (cur ++ line)) size && ltb 0 (length cur)

-- The loop of `Chunk` over the lines; `cur` is what the builder holds.
unfoldable pub chunk_loop : (Bytes → ℤ) → ChunkOptions → Bytes → List Bytes → List Bytes
chunk_loop tokenize opts cur [] = if ltb 0 (length cur) then cur ∷ [] else []
chunk_loop tokenize opts cur (line ∷ lines) =
    let full = is_full tokenize opts.chunk_size cur line in
    let kept = if full then overlap_tail cur opts.overlap_size tokenize else cur in
    let rest = chunk_loop tokenize opts (kept ++ line) lines in if full then cur ∷ rest else rest

unfoldable pub chunk_tokens : Option (Bytes → ℤ) → ChunkOptions → Bytes → List Bytes
chunk_tokens none opts content = []
chunk_tokens (some tokenize) opts content =
    if length content == 0
    then []
    else chunk_loop tokenize opts [] (with_sep (split content (codes "\n")))

-- `TokenChunker.Chunk`.
unfoldable token_chunk : TokenChunker → Bytes → List Bytes
token_chunk c content = chunk_tokens c.tokenize c.opts content

-- One token for each byte.
abbrev byte_tokens : Bytes → ℤ
byte_tokens s = pos (length s)

lines_kept :
    chunk_tokens
      (some byte_tokens)
      (record { chunk_size = 6; overlap_size = 0 })
      (codes "ab\ncd\nefg\nh")
    ≡ codes "ab\ncd\n" ∷ codes "efg\nh" ∷ []
unfolding chunk_tokens chunk_loop is_full above overlap_tail with_sep split
    fileprocessor.Text.split_from fileprocessor.Text.has_prefix fileprocessor.Text.cons_head
lines_kept = refl

-- The tail for an overlap is one rune long.
short_tail : overlap_tail (codes "caf" ++ 0xc3 ∷ 0xa9 ∷ []) 4 byte_tokens ≡ 0xc3 ∷ 0xa9 ∷ []
unfolding overlap_tail tail_loop runes runes_from rune_width rune_length second_low second_high
    is_between continues above
short_tail = refl
