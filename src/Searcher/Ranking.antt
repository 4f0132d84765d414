-- ===== src/Searcher/Ranking.antt =====
-- The fused ranking has each id once, with the score that its ranks give.
use mathlib.Core.List.{Permᴰ}
use mathlib.Core.List.Permᴰ
use mathlib.Core.Path.{subst}
use fileprocessor.Base.{
  ℕ, zero, suc, ◌≡◌, refl, sym, ap, ◌∙◌, inl, inr, true, false, List, [], ◌∷◌, map, arith, if_ind,
  Bool-cases, Bytes, bytes_eq, bytes_eq_sound, bytes_eq_refl, take, All, All-map,
}
use fileprocessor.Searcher.Fusion.{
  Floats, VectorMatch, Fused, insert_by_score, sort_by_score, rescored, vector_loop, keyword_loop,
  fuse_rrf,
}
use fileprocessor.Searcher.Scores.{
  score_at, total, Fresh, Distinct, own_scores, vector_loop-Distinct, keyword_loop-Distinct,
  score_at-vector_loop, score_at-keyword_loop,
}

bytes_eq-flip : (a b : Bytes) → bytes_eq a b ≡ false → bytes_eq b a ≡ false
bytes_eq-flip a b apart = elim (Bool-cases (bytes_eq b a)) [
  | inr no' ↦ no'
  | inl same ↦
      let t : bytes_eq a b ≡ true = rw (bytes_eq_sound b a same) (bytes_eq_refl a) in
      absurd (ground (arith, t, apart))
]

module _ {A : Type 0} (P : A → Type 0) where
  All-perm : {xs ys : List A} → Permᴰ xs ys → All P xs → All P ys
  All-perm Permᴰ.nil h = h
  All-perm (Permᴰ.cons e d) (p, h) = (rw (sym e) p, All-perm d h)
  All-perm (Permᴰ.swap e e') (p, (q, h)) = (rw (sym e') q, (rw (sym e) p, h))
  All-perm (Permᴰ.trans d d') h = All-perm d' (All-perm d h)

  All-take : (n : ℕ) (xs : List A) → All P xs → All P (take n xs)
  All-take zero xs h = tt
  All-take (suc n) [] h = tt
  All-take (suc n) (x ∷ xs) (p, h) = (p, All-take n xs h)

module _ {F : Type 0} (floats : Floats F) where
  insert_by_score-perm :
      (x : Fused F) (xs : List (Fused F)) → Permᴰ (x ∷ xs) (insert_by_score floats x xs)
  unfolding insert_by_score
  insert_by_score-perm x [] = Permᴰ.refl (x ∷ [])
  insert_by_score-perm x (y ∷ ys) =
      if_ind (Permᴰ (x ∷ y ∷ ys)) (floats.greater y.score x.score)
        (λ _. Permᴰ.trans (Permᴰ.swap refl refl) (Permᴰ.cons refl (insert_by_score-perm x ys)))
        (λ _. Permᴰ.refl (x ∷ y ∷ ys))

  sort_by_score-perm : (xs : List (Fused F)) → Permᴰ xs (sort_by_score floats xs)
  unfolding sort_by_score
  sort_by_score-perm [] = Permᴰ.nil
  sort_by_score-perm (x ∷ xs) =
      Permᴰ.trans (Permᴰ.cons refl (sort_by_score-perm xs))
        (insert_by_score-perm x (sort_by_score floats xs))

  Distinct-perm : {xs ys : List (Fused F)} → Permᴰ xs ys → Distinct floats xs → Distinct floats ys
  Distinct-perm Permᴰ.nil h = h
  Distinct-perm (Permᴰ.cons {a = a} {b = b} {l₁ = l} e d) (fresh, h) =
      let same : a.matched.id ≡ b.matched.id = ap (λ (x : Fused F). x.matched.id) e in
      (
        All-perm (λ (y : Fused F). bytes_eq b.matched.id y.matched.id ≡ false) d
            (subst (λ (k : Bytes). Fresh floats k l) same fresh),
        Distinct-perm d h,
      )
  Distinct-perm (Permᴰ.swap {a = a} {b = b} {a' = a'} {b' = b'} {l = l} e e') ((ab, fa), (fb, h)) =
      let to_b : a.matched.id ≡ b'.matched.id = ap (λ (x : Fused F). x.matched.id) e in
      let to_a : b.matched.id ≡ a'.matched.id = ap (λ (x : Fused F). x.matched.id) e' in
      let ba = bytes_eq-flip a.matched.id b.matched.id ab in
      let half = subst (λ (k : Bytes). bytes_eq k a.matched.id ≡ false) to_a ba in
      (
        (
          subst (λ (k : Bytes). bytes_eq a'.matched.id k ≡ false) to_b half,
          subst (λ (k : Bytes). Fresh floats k l) to_a fb,
        ),
        (subst (λ (k : Bytes). Fresh floats k l) to_b fa, h),
      )
  Distinct-perm (Permᴰ.trans d d') h = Distinct-perm d' (Distinct-perm d h)

  -- The fused score of an id: the shares of its ranks in the vector ranking, and on top of them those
  -- of its ranks in the keyword ranking.
  abbrev pub rrf_score : Bytes → List (VectorMatch F) → List (VectorMatch F) → F
  rrf_score id vs ks =
      total floats floats.keyword_weight id 0 ks
        (total floats floats.vector_weight id 0 vs floats.zero_score)

  -- The ids of the matches are distinct.
  abbrev pub DistinctIds : List (VectorMatch F) → Type 0
  DistinctIds [] = Unit
  DistinctIds (m ∷ ms) = All (λ (n : VectorMatch F). bytes_eq m.id n.id ≡ false) ms × DistinctIds ms

  abbrev pub HasRrf : List (VectorMatch F) → List (VectorMatch F) → VectorMatch F → Type 0
  HasRrf vs ks m = m.similarity ≡ rrf_score m.id vs ks

  All-rescored :
      (P : VectorMatch F → Type 0) (xs : List (Fused F))
      → All (λ (x : Fused F). P (rescored floats x)) xs
      → All P (map (rescored floats) xs)
  All-rescored P [] h = tt
  All-rescored P (x ∷ xs) (p, h) = (p, All-rescored P xs h)

  rescored-DistinctIds :
      (xs : List (Fused F)) → Distinct floats xs → DistinctIds (map (rescored floats) xs)
  unfolding rescored
  rescored-DistinctIds [] h = tt
  rescored-DistinctIds (x ∷ xs) (fresh, h) = (
    All-rescored (λ (n : VectorMatch F). bytes_eq x.matched.id n.id ≡ false) xs fresh,
    rescored-DistinctIds xs h,
  )

  take-Distinct : (n : ℕ) (xs : List (Fused F)) → Distinct floats xs → Distinct floats (take n xs)
  take-Distinct zero xs h = tt
  take-Distinct (suc n) [] h = tt
  take-Distinct (suc n) (x ∷ xs) (fresh, h) = (
    All-take (λ (y : Fused F). bytes_eq x.matched.id y.matched.id ≡ false) n xs fresh,
    take-Distinct n xs h,
  )

  module _ (iteration : List (Fused F) → List (Fused F))
      (iterates : (xs : List (Fused F)) → Permᴰ xs (iteration xs)) (vs ks : List (VectorMatch F))
      (limit : ℕ) where
    abbrev merged : List (Fused F)
    merged = keyword_loop floats 0 ks (vector_loop floats 0 vs [])

    merged-Distinct : Distinct floats merged
    merged-Distinct = keyword_loop-Distinct floats 0 ks _ (vector_loop-Distinct floats 0 vs [] tt)

    merged_score : (id : Bytes) → score_at floats id merged ≡ rrf_score id vs ks
    unfolding score_at
    merged_score id =
        score_at-keyword_loop floats id 0 ks (vector_loop floats 0 vs [])
        ∙ ap (total floats floats.keyword_weight id 0 ks) (score_at-vector_loop floats id 0 vs [])

    merged_sorted : Permᴰ merged (sort_by_score floats (iteration merged))
    merged_sorted = Permᴰ.trans (iterates merged) (sort_by_score-perm (iteration merged))

    -- Whatever the order in which the map is walked, no id stands twice in the fused ranking.
    pub fuse_rrf-DistinctIds : DistinctIds (fuse_rrf floats iteration vs ks limit)
    unfolding fuse_rrf
    fuse_rrf-DistinctIds =
        rescored-DistinctIds (take limit (sort_by_score floats (iteration merged)))
          (take-Distinct limit _ (Distinct-perm merged_sorted merged-Distinct))

    -- Whatever the order in which the map is walked, the similarity of each match in the fused
    -- ranking is the sum of the shares of all the ranks that its id has in the two rankings, added
    -- in the order of the ranks, those of the vector ranking first.
    pub fuse_rrf-scores : All (HasRrf vs ks) (fuse_rrf floats iteration vs ks limit)
    unfolding fuse_rrf rescored
    fuse_rrf-scores =
        All-rescored (HasRrf vs ks) (take limit (sort_by_score floats (iteration merged))) (
          All-take (λ (x : Fused F). x.score ≡ rrf_score x.matched.id vs ks) limit _
            (All-perm (λ (x : Fused F). x.score ≡ rrf_score x.matched.id vs ks) merged_sorted
              (All-map _ _ (λ x same. sym same ∙ merged_score x.matched.id) merged
                (own_scores floats merged merged-Distinct))))
