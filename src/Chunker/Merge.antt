-- ===== src/Chunker/Merge.antt =====
-- Where `mergeParts` of chunker.go puts the separators.
use fileprocessor.Base.{ℕ, ◌+◌, ◌≤◌, ◌<◌, ◌≡◌, [], ◌∷◌, ◌++◌, arith, Bytes, length, length-append}
use fileprocessor.Merging.{merge_loop}
use fileprocessor.Chunker.{write_part, merge_parts}

-- Two parts that are not empty and fit in one chunk are glued together, with the separator behind
-- them and none between them.
pub merge_parts_two :
    (p q sep : Bytes) (size overlap : ℕ)
    → 0 < length p
    → 0 < length q
    → length p + length sep + length q ≤ size
    → merge_parts (p ∷ q ∷ []) sep size overlap ≡ ((p ++ q) ++ sep) ∷ []
unfolding merge_parts merge_loop write_part
merge_parts_two p q sep size overlap hp hq fits =
    ground (arith, length-append p q, length-append (p ++ q) sep)
