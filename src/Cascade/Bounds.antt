-- ===== src/Cascade/Bounds.antt =====
-- The size of the chunks that the recursion returns.
use fileprocessor.Base.{
  ℕ, ◌≤◌, refl, List, [], ◌∷◌, ◌++◌, arith, ltb, leb, ◌==◌, if_ind, Bytes, length, All, All-append,
}
use fileprocessor.Text.{contains, split, trim_space}
use fileprocessor.Cascade.{flush, split_parts, cascade, separators, IsSeparator}
use fileprocessor.Text.Ink.{ink}

pub separators-IsSeparator : All IsSeparator separators
unfolding ink
separators-IsSeparator = (
  (cc, omega arith, refl),
  (
    (cc, omega arith, refl),
    (
      (cc, omega arith, refl),
      (
        (cc, omega arith, refl),
        (
          (cc, omega arith, refl),
          ((cc, omega arith, refl), ((cc, omega arith, refl), ((cc, omega arith, refl), tt))),
        ),
      ),
    ),
  ),
)

abbrev pub Within : ℕ → List Bytes → Type 0
Within n = All (λ (c : Bytes). length c ≤ n)

module _ (merge : List Bytes → Bytes → List Bytes) (force : Bytes → List Bytes) (size bound : ℕ)
    (roomy : size ≤ bound)
    (merge-Within : (ps : List Bytes) (sep : Bytes)
      → length sep ≤ 2
      → Within size ps
      → Within bound (merge ps sep))
    (force-Within : (text : Bytes) → Within bound (force text)) where
  flush-Within :
      (good : List Bytes) (sep : Bytes)
      → length sep ≤ 2
      → Within size good
      → Within bound (flush merge force size good sep)
  unfolding flush
  flush-Within [] sep short h = tt
  flush-Within (p ∷ ps) sep short h = merge-Within (p ∷ ps) sep short h

  split_parts-Within :
      (deeper : Bytes → List Bytes) (sep : Bytes)
      → ((text : Bytes) → Within bound (deeper text))
      → length sep ≤ 2
      → (parts good : List Bytes) → Within size good
      → Within bound (split_parts merge force size deeper sep parts good)
  unfolding split_parts
  split_parts-Within deeper sep deep short [] good h = flush-Within good sep short h
  split_parts-Within deeper sep deep short (raw ∷ parts) good h =
      let part = trim_space raw in
      let loop = split_parts-Within deeper sep deep short parts in
      if_ind (Within bound) (length part == 0) (λ _. loop good h)
        λ _.
          if_ind (Within bound) (ltb size (length part))
            (λ large.
              All-append _ (flush merge force size good sep) _ (flush-Within good sep short h)
                (All-append _ (deeper part) _ (deep part) (loop [] tt)))
            (λ small. loop (good ++ part ∷ []) (All-append _ good _ h (ground arith, tt)))

  pub cascade-Within :
      (seps : List Bytes)
      → All IsSeparator seps
      → (text : Bytes) → Within bound (cascade merge force size seps text)
  unfolding cascade
  cascade-Within [] h text =
      if_ind (Within bound) (leb (length text) size) (λ small. (ground arith, tt))
        (λ _. force-Within text)
  cascade-Within (sep ∷ seps) (h, hs) text =
      let deep = cascade-Within seps hs in
      if_ind (Within bound) (leb (length text) size) (λ small. (ground arith, tt))
        λ _.
          if_ind (Within bound) (contains text sep)
            (λ _. split_parts-Within _ sep deep h.1 (split text sep) [] tt) (λ _. deep text)
