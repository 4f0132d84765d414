-- ===== src/TokenChunker/Overlap.antt =====
-- The overlap between the chunks of the token chunker.
use fileprocessor.Base.{
  ℕ, ◌≤◌, ◌<◌, ◌≡◌, refl, ◌⊎◌, inl, inr, true, false, ◌||◌, List, [], ◌∷◌, ◌++◌, reverse, arith,
  ◌==◌, if_ind, Bytes, ℤ, length, length-append,
}
use fileprocessor.TokenChunker.{above, runes, tail_loop, overlap_tail}

module _ (tokenize : Bytes → ℤ) (max_tokens : ℕ) where
  -- The text is one that the loop tests: that of the runes from some rune on, in front of the suffix.
  abbrev pub IsTested : Bytes → Bytes → List Bytes → Type 0
  IsTested t suffix [] = ⊥
  IsTested t suffix (r ∷ rs) = (t ≡ r ++ suffix) ⊎ IsTested t (r ++ suffix) rs

  -- Of these texts those with fewer bytes have too many tokens.
  abbrev pub NoShorter : ℕ → Bytes → List Bytes → Type 0
  NoShorter n suffix [] = Unit
  NoShorter n suffix (r ∷ rs) =
      (length (r ++ suffix) < n → above (tokenize (r ++ suffix)) max_tokens ≡ true)
      × NoShorter n (r ++ suffix) rs

  longer-NoShorter :
      (n : ℕ) (suffix : Bytes) (rs : List Bytes) → n ≤ length suffix → NoShorter n suffix rs
  longer-NoShorter n suffix [] long = tt
  longer-NoShorter n suffix (r ∷ rs) long =
      let more : n ≤ length (r ++ suffix) = omega (arith, long, length-append r suffix) in
      ((λ shorter. absurd (omega (arith, more, shorter))), longer-NoShorter n (r ++ suffix) rs more)

  tail_loop-NoShorter :
      (src suffix : Bytes) (rs : List Bytes)
      → NoShorter (length (tail_loop tokenize max_tokens src suffix rs)) suffix rs
  unfolding tail_loop
  tail_loop-NoShorter src suffix [] = tt
  tail_loop-NoShorter src suffix (r ∷ rs) =
      if_ind (λ (t : Bytes). NoShorter (length t) suffix (r ∷ rs))
        (above (tokenize (r ++ suffix)) max_tokens)
        (λ high. ((λ _. high), tail_loop-NoShorter src (r ++ suffix) rs))
        (λ low. (
          (λ shorter. absurd (omega (arith, shorter))),
          longer-NoShorter (length (r ++ suffix)) (r ++ suffix) rs (omega arith),
        ))

  tail_loop-IsTested :
      (src suffix : Bytes) (rs : List Bytes)
      → ((above (tokenize (tail_loop tokenize max_tokens src suffix rs)) max_tokens ≡ false)
          × IsTested (tail_loop tokenize max_tokens src suffix rs) suffix rs)
        ⊎ (tail_loop tokenize max_tokens src suffix rs ≡ src)
  unfolding tail_loop
  tail_loop-IsTested src suffix [] = inr refl
  tail_loop-IsTested src suffix (r ∷ rs) =
      if_ind
        (λ (t : Bytes).
          ((above (tokenize t) max_tokens ≡ false) × IsTested t suffix (r ∷ rs)) ⊎ (t ≡ src))
        (above (tokenize (r ++ suffix)) max_tokens)
        (λ _. elim (tail_loop-IsTested src (r ++ suffix) rs) [
          | inl (low, tested) ↦ inl (low, inr tested)
          | inr whole ↦ inr whole
        ])
        (λ low. inl (low, inl refl))

  -- For a chunk and an overlap that are not empty, the tail is the text of the chunk's runes from
  -- some rune on and is within the overlap, or it is the whole chunk; and all texts of the runes
  -- from some rune on that have fewer bytes are not within the overlap. So a tail within the overlap
  -- is the shortest that there is.
  pub overlap_tail_shortest :
      (src : Bytes)
      → 0 < length src
      → 0 < max_tokens
      → (((above (tokenize (overlap_tail src max_tokens tokenize)) max_tokens ≡ false)
            × IsTested (overlap_tail src max_tokens tokenize) [] (reverse (runes src)))
          ⊎ (overlap_tail src max_tokens tokenize ≡ src))
        × NoShorter (length (overlap_tail src max_tokens tokenize)) [] (reverse (runes src))
  unfolding overlap_tail
  overlap_tail_shortest src some_src some_overlap =
      let work : (length src == 0 || max_tokens == 0) ≡ false =
        ground (arith, some_src, some_overlap) in
      rw work (
        tail_loop-IsTested src [] (reverse (runes src)),
        tail_loop-NoShorter src [] (reverse (runes src)),
      )
