-- ===== src/Merging/Ink.antt =====
-- The content of the chunks that the merge loop emits with overlap 0.
use fileprocessor.Base.{
  ℕ, ◌+◌, ◌≡◌, ap, sym, ◌∙◌, List, [], ◌∷◌, ◌++◌, ◌&&◌, append_assoc, Bytes, ltb, length, if_ind,
  arith,
}
use fileprocessor.Text.Ink.{ink, ink_nil}
use fileprocessor.Cascade.Ink.{ink_all}
use fileprocessor.Merging.{carry_over, merge_loop}
use fileprocessor.Merging.Bounds.{carry_over_none}

module _ (write : Bytes → Bytes → Bytes) (sep : Bytes) (write_first : (p : Bytes) → write [] p ≡ p)
    (write-ink : (cur p : Bytes) → ink (write cur p) ≡ ink cur ++ ink p) where
  pub merge_loop-ink :
      (size : ℕ) (ps : List Bytes) (cur : Bytes)
      → ink_all (merge_loop write sep size 0 ps cur) ≡ ink cur ++ ink_all ps
  unfolding merge_loop
  merge_loop-ink size [] [] = sym (rw (ink_nil))
  merge_loop-ink size [] (c ∷ cur) = ground arith
  merge_loop-ink size (p ∷ ps) cur =
      let goal = λ (cs : List Bytes). ink_all cs ≡ ink cur ++ (ink p ++ ink_all ps) in
      if_ind goal (ltb 0 (length cur) && ltb size (length cur + length sep + length p))
        (λ _.
          ap (λ (t : Bytes). ink cur ++ t)
            (merge_loop-ink size ps (write (carry_over sep 0 cur) p)
              ∙ ap (λ (t : Bytes). ink t ++ ink_all ps)
                  (ap (λ (t : Bytes). write t p) (carry_over_none sep cur) ∙ write_first p)))
        (λ _. merge_loop-ink size ps (write cur p) ∙ simp (write-ink, append_assoc))
