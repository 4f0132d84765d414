-- ===== src/Cascade/Ink.antt =====
-- The content of the chunks that the recursion returns.
use fileprocessor.Base.{
  ℕ, ◌≡◌, refl, ap, sym, ◌∙◌, List, [], ◌∷◌, ◌++◌, append_assoc, append-nil, Bytes, leb, ltb, ◌==◌,
  arith, length, All, if_ind, flatten,
}
use fileprocessor.Text.{contains, split, trim_space}
use fileprocessor.Text.Ink.{ink, ink_nil, ink-append, ink-trim_space, ink-split}
use fileprocessor.Cascade.{flush, split_parts, cascade, IsSeparator}

-- The ink of a list of texts, one after the other.
abbrev pub ink_all : List Bytes → Bytes
ink_all [] = []
ink_all (p ∷ ps) = ink p ++ ink_all ps

pub ink_all-append : (ps qs : List Bytes) → ink_all (ps ++ qs) ≡ ink_all ps ++ ink_all qs
ink_all-append [] qs = refl
ink_all-append (p ∷ ps) qs = simp (ink_all-append ps qs, append_assoc)

pub ink-flatten : (ps : List Bytes) → ink (flatten ps) ≡ ink_all ps
ink-flatten [] = ink_nil
ink-flatten (p ∷ ps) = ink-append p (flatten ps) ∙ ap (λ t. ink p ++ t) (ink-flatten ps)

length_zero : (p : Bytes) → length p ≡ 0 → p ≡ []
length_zero [] h = refl
length_zero (c ∷ p) h = absurd (ground arith)

module _ (merge : List Bytes → Bytes → List Bytes) (force : Bytes → List Bytes) (size : ℕ)
    (merge-ink : (ps : List Bytes) (sep : Bytes)
      → ink sep ≡ []
      → ink_all (merge ps sep) ≡ ink_all ps)
    (force-ink : (text : Bytes) → ink_all (force text) ≡ ink text) where
  flush-ink :
      (good : List Bytes) (sep : Bytes)
      → ink sep ≡ []
      → ink_all (flush merge force size good sep) ≡ ink_all good
  unfolding flush
  flush-ink [] sep blank = refl
  flush-ink (p ∷ ps) sep blank = merge-ink (p ∷ ps) sep blank

  split_parts-ink :
      (deeper : Bytes → List Bytes) (sep : Bytes)
      → ((text : Bytes) → ink_all (deeper text) ≡ ink text)
      → ink sep ≡ []
      → (parts good : List Bytes)
      → ink_all (split_parts merge force size deeper sep parts good) ≡ ink_all good ++ ink_all parts
  unfolding split_parts
  split_parts-ink deeper sep deep blank [] good =
      flush-ink good sep blank ∙ sym (append-nil (ink_all good))
  split_parts-ink deeper sep deep blank (raw ∷ parts) good =
      let part = trim_space raw in
      let loop = split_parts-ink deeper sep deep blank parts in
      let goal = λ (cs : List Bytes). ink_all cs ≡ ink_all good ++ (ink raw ++ ink_all parts) in
      if_ind goal (length part == 0)
        (λ empty.
          let e : ink raw ≡ [] =
            sym (ink-trim_space raw) ∙ ap ink (length_zero part (ground arith)) ∙ ink_nil in
          rw e (loop good))
        λ _.
          if_ind goal (ltb size (length part))
            (λ large.
              simp (ink_all-append, flush-ink good sep blank, deep, loop, ink-trim_space raw))
            (λ small. simp (loop, ink_all-append, ink-trim_space raw, append-nil, append_assoc))

  pub cascade-ink :
      (seps : List Bytes)
      → All IsSeparator seps
      → (text : Bytes) → ink_all (cascade merge force size seps text) ≡ ink text
  unfolding cascade
  cascade-ink [] h text =
      if_ind (λ (cs : List Bytes). ink_all cs ≡ ink text) (leb (length text) size)
        (λ _. append-nil (ink text)) (λ _. force-ink text)
  cascade-ink ([] ∷ seps) (h, hs) text = absurd (h.0 refl)
  cascade-ink ((b ∷ sep) ∷ seps) (h, hs) text =
      let deep = cascade-ink seps hs in
      let goal = λ (cs : List Bytes). ink_all cs ≡ ink text in
      if_ind goal (leb (length text) size) (λ _. append-nil (ink text))
        λ _.
          if_ind goal (contains text (b ∷ sep))
            (λ _.
              split_parts-ink _ (b ∷ sep) deep h.2 (split text (b ∷ sep)) []
              ∙ sym (ink-flatten (split text (b ∷ sep)))
              ∙ ink-split text b sep h.2)
            (λ _. deep text)
