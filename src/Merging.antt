-- ===== src/Merging.antt =====
-- The loop that `mergeParts` of chunker.go and `RAGChunker.mergeParts` of rag_chunker.go share: the
-- guard, the flush and the overlap. They differ in how a round writes its part, which is a
-- parameter here.
pub mod Bounds
pub mod Ink
use fileprocessor.Base.{
  ℕ, ◌+◌, ◌-◌, List, [], ◌∷◌, ◌++◌, ◌&&◌, Bytes, ltb, if◌then◌else◌, length, drop,
}

-- What the builder holds after a flush: the end of the chunk just emitted, and a separator.
unfoldable pub carry_over : Bytes → ℕ → Bytes → Bytes
carry_over sep overlap cur = if ltb 0 overlap then drop (length cur - overlap) cur ++ sep else []

-- The second list of bytes is the builder; the result is the chunks emitted from here on.
unfoldable pub merge_loop :
    (Bytes → Bytes → Bytes) → Bytes → ℕ → ℕ → List Bytes → Bytes → List Bytes
unfolding carry_over
merge_loop write sep size overlap [] cur = if ltb 0 (length cur) then cur ∷ [] else []
merge_loop write sep size overlap (p ∷ ps) cur =
    let flushed =
      cur ∷ merge_loop write sep size overlap ps (write (carry_over sep overlap cur) p) in
    let grown = merge_loop write sep size overlap ps (write cur p) in
    if ltb 0 (length cur) && ltb size (length cur + length sep + length p) then flushed else grown
