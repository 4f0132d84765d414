-- ===== src/RagChunker/Merge.antt =====
-- Where `mergeParts` of rag_chunker.go puts the separators.
use fileprocessor.Base.{
  ℕ, ◌+◌, ◌-◌, ◌<◌, ◌≡◌, refl, sym, ap, ◌∙◌, ◌≢◌, ◌&&◌, List, [], ◌∷◌, ◌++◌, append_assoc, arith,
  ltb, if_ind, Bytes, length, drop, length-append, All,
}
use fileprocessor.Text.{join}
use fileprocessor.Text.Laws.{join-cons}
use fileprocessor.Merging.Bounds.{carry_over_none}
use fileprocessor.RagChunker.Bounds.{write_part_first}
use fileprocessor.Merging.{merge_loop, carry_over}
use fileprocessor.RagChunker.{write_part, merge_parts}

write_part_more :
    (sep : Bytes) (c : ℕ) (cur p : Bytes) → write_part sep (c ∷ cur) p ≡ c ∷ (cur ++ (sep ++ p))
unfolding write_part
write_part_more sep c cur p = ground (arith, append_assoc (c ∷ cur) sep p)

merge_loop-ne-nil :
    (ps : List Bytes) (c : ℕ) (cur sep : Bytes) (size : ℕ)
    → All (λ (q : Bytes). q ≢ []) ps
    → merge_loop (write_part sep) sep size 0 ps (c ∷ cur) ≢ []
unfolding merge_loop
merge_loop-ne-nil [] c cur sep size h = ground arith
merge_loop-ne-nil (p ∷ ps) c cur sep size (filled, h) =
    if_ind (λ (cs : List Bytes). cs ≢ [])
      (ltb 0 (length (c ∷ cur)) && ltb size (length (c ∷ cur) + length sep + length p)) (λ _ e. cc)
      (λ _.
        rw (write_part_more sep c cur p) (merge_loop-ne-nil ps c (cur ++ (sep ++ p)) sep size h))

join_glued :
    (t sep p : Bytes) (ps : List Bytes) → join ((t ++ (sep ++ p)) ∷ ps) sep ≡ join (t ∷ p ∷ ps) sep
unfolding join
join_glued t sep p [] = refl
join_glued t sep p (q ∷ qs) = simp append_assoc

-- The loop with text in the builder.
loop-join :
    (ps : List Bytes) (cur sep : Bytes) (size : ℕ)
    → cur ≢ []
    → All (λ (q : Bytes). q ≢ []) ps
    → join (merge_loop (write_part sep) sep size 0 ps cur) sep ≡ join (cur ∷ ps) sep
unfolding merge_loop
loop-join ps [] sep size filled h = absurd (filled refl)
loop-join [] (c ∷ cur) sep size filled h =
    if_ind (λ (cs : List Bytes). join cs sep ≡ join ((c ∷ cur) ∷ []) sep) (ltb 0 (length (c ∷ cur)))
      (λ _. refl) (λ empty. absurd (ground arith))
loop-join ([] ∷ ps) (c ∷ cur) sep size filled (filled_p, h) = absurd (filled_p refl)
loop-join ((b ∷ p) ∷ ps) (c ∷ cur) sep size filled (filled_p, h) =
    let part = b ∷ p in
    let goal = λ (cs : List Bytes). join cs sep ≡ join ((c ∷ cur) ∷ part ∷ ps) sep in
    if_ind goal (ltb 0 (length (c ∷ cur)) && ltb size (length (c ∷ cur) + length sep + length part))
      (λ _.
        rw (carry_over_none sep (c ∷ cur), write_part_first sep part)
          (join-cons (c ∷ cur) _ sep (merge_loop-ne-nil ps b p sep size h)
            ∙ ap (λ (t : Bytes). (c ∷ cur) ++ (sep ++ t)) (loop-join ps part sep size filled_p h)
            ∙ sym (join-cons (c ∷ cur) (part ∷ ps) sep (λ e. cc))))
      (λ _. rw (write_part_more sep c cur part) (
        loop-join ps (c ∷ (cur ++ (sep ++ part))) sep size (λ e. cc) h
        ∙ join_glued (c ∷ cur) sep part ps))

-- If a part that is not empty and a second one do not fit in one chunk, then with a positive
-- overlap the second chunk is the end of the first part, the separator twice, and the second part.
pub merge_parts_flush :
    (p q sep : Bytes) (size overlap : ℕ)
    → 0 < length p
    → 0 < overlap
    → 0 < length sep
    → size < length p + length sep + length q
    → merge_parts (p ∷ q ∷ []) sep size overlap
      ≡ p ∷ (((drop (length p - overlap) p ++ sep) ++ sep) ++ q) ∷ []
unfolding merge_parts merge_loop write_part carry_over
merge_parts_flush p q sep size overlap hp ho hs large = ground (
  arith,
  length-append (drop (length p - overlap) p) sep,
  length-append (drop (length p - overlap) p ++ sep) sep,
  length-append ((drop (length p - overlap) p ++ sep) ++ sep) q,
)

-- Without overlap, for parts that are not empty, the separators between the parts that share a
-- chunk stay, and those between two chunks are dropped: joining the chunks by the separator joins
-- the parts.
pub join-merge_parts :
    (p : Bytes) (ps : List Bytes) (sep : Bytes) (size : ℕ)
    → All (λ (q : Bytes). q ≢ []) (p ∷ ps)
    → join (merge_parts (p ∷ ps) sep size 0) sep ≡ join (p ∷ ps) sep
unfolding merge_parts merge_loop
join-merge_parts p ps sep size (filled, h) =
    rw (write_part_first sep p) (loop-join ps p sep size filled h)
