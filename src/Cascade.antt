-- ===== src/Cascade.antt =====
-- The recursion that `recursiveSplit` of chunker.go and `RAGChunker.recursiveSplit` of
-- rag_chunker.go share word for word: they differ in the functions that merge small parts and that
-- cut a text without separators, which are parameters here.
pub mod Bounds
pub mod Ink
use fileprocessor.Base.{
  ℕ, ◌≡◌, ◌≢◌, refl, Bool, true, false, List, [], ◌∷◌, ◌++◌, Bytes, codes, leb, ltb, ◌==◌,
  if◌then◌else◌, length, ◌≤◌,
}
use fileprocessor.Text.{contains, split, trim_space}
use fileprocessor.Text.Ink.{ink}

-- The separators, from the coarsest to the finest.
abbrev pub separators : List Bytes
separators =
    codes "\n\n"
    ∷ codes "\n"
    ∷ codes ". "
    ∷ codes "? "
    ∷ codes "! "
    ∷ codes "; "
    ∷ codes ", "
    ∷ codes " "
    ∷ []

module _ (merge : List Bytes → Bytes → List Bytes) (force : Bytes → List Bytes) (size : ℕ) where
  -- `if len(good) > 0 { chunks = append(chunks, mergeParts(good, …)...) }`
  unfoldable pub flush : List Bytes → Bytes → List Bytes
  flush [] sep = []
  flush (p ∷ ps) sep = merge (p ∷ ps) sep

  -- The loop over the parts; `good` are the small parts not yet merged.
  unfoldable pub split_parts : (Bytes → List Bytes) → Bytes → List Bytes → List Bytes → List Bytes
  unfolding flush
  split_parts deeper sep [] good = flush good sep
  split_parts deeper sep (raw ∷ parts) good =
      let part = trim_space raw in
      let skipped = split_parts deeper sep parts good in
      let split_deeper = flush good sep ++ (deeper part ++ split_parts deeper sep parts []) in
      let collected = split_parts deeper sep parts (good ++ part ∷ []) in
      if length part == 0
      then skipped
      else if ltb size (length part)
      then split_deeper
      else collected

  -- The list holds the separators from the current depth on.
  unfoldable pub cascade : List Bytes → Bytes → List Bytes
  unfolding split_parts
  cascade [] text = if leb (length text) size then text ∷ [] else force text
  cascade (sep ∷ seps) text =
      let deeper = cascade seps in
      let parts = split_parts deeper sep (split text sep) [] in
      if leb (length text) size then text ∷ [] else if contains text sep then parts else deeper text

-- What the proofs need of a separator.
abbrev pub IsSeparator : Bytes → Type 0
IsSeparator sep = (sep ≢ []) × (length sep ≤ 2) × (ink sep ≡ [])
