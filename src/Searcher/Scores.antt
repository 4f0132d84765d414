-- ===== src/Searcher/Scores.antt =====
-- The scores that the fusion gives.
use fileprocessor.Base.{
  ℕ, ◌+◌, ◌≡◌, refl, sym, ap, ◌∙◌, inl, inr, true, false, List, [], ◌∷◌, arith, ◌==◌, if◌then◌else◌,
  if_ind, Bool-cases, Bytes, bytes_eq, bytes_eq_sound, bytes_eq_refl, length, All,
}
use fileprocessor.Searcher.Fusion.{
  Floats, VectorMatch, Fused, share, update, add_share, fill_file, vector_loop, keyword_loop,
}

All-zip :
    {A : Type 0} (P Q R : A → Type 0)
    → ((a : A) → P a → Q a → R a)
    → (xs : List A) → All P xs
    → All Q xs
    → All R xs
All-zip P Q R f [] _ _ = tt
All-zip P Q R f (x ∷ xs) (p, hp) (q, hq) = (f x p q, All-zip P Q R f xs hp hq)

bytes_eq-apart : (a b c : Bytes) → bytes_eq a b ≡ false → bytes_eq a c ≡ true → bytes_eq b c ≡ false
bytes_eq-apart a b c apart same = elim (Bool-cases (bytes_eq b c)) [
  | inr apart' ↦ apart'
  | inl same' ↦
      let e : a ≡ b = bytes_eq_sound a c same ∙ sym (bytes_eq_sound b c same') in
      let t : bytes_eq a b ≡ true = rw e (bytes_eq_refl b) in absurd (ground (arith, t, apart))
]

module _ {F : Type 0} (floats : Floats F) where
  -- The score under an id in the map, the score 0 if there is none.
  unfoldable pub score_at : Bytes → List (Fused F) → F
  score_at id [] = floats.zero_score
  score_at id (x ∷ xs) = if bytes_eq x.matched.id id then x.score else score_at id xs

  -- What a ranking adds to the score of an id: the share of each of its ranks.
  unfoldable pub total : F → Bytes → ℕ → List (VectorMatch F) → F → F
  total weight id rank [] acc = acc
  total weight id rank (m ∷ ms) acc =
      total weight id (rank + 1) ms
        (if bytes_eq m.id id then floats.add acc (share floats weight rank) else acc)

  -- The ids of the entries are distinct.
  abbrev pub Fresh : Bytes → List (Fused F) → Type 0
  Fresh k = All (λ (y : Fused F). bytes_eq k y.matched.id ≡ false)

  abbrev pub Distinct : List (Fused F) → Type 0
  Distinct [] = Unit
  Distinct (x ∷ xs) = Fresh x.matched.id xs × Distinct xs

  module _ (f : Fused F → Fused F) (keeps : (x : Fused F) → (f x).matched.id ≡ x.matched.id) where
    update-Fresh :
        (k : Bytes) (m : VectorMatch F) (xs : List (Fused F))
        → bytes_eq k m.id ≡ false
        → Fresh k xs
        → Fresh k (update floats f m xs)
    unfolding update
    update-Fresh k m [] apart h =
        (rw (keeps (record { matched = m; score = floats.zero_score })) apart, tt)
    update-Fresh k m (x ∷ xs) apart (hx, h) =
        if_ind (Fresh k) (bytes_eq x.matched.id m.id) (λ _. (rw (keeps x) hx, h))
          (λ _. (hx, update-Fresh k m xs apart h))

    update-Distinct :
        (m : VectorMatch F) (xs : List (Fused F)) → Distinct xs → Distinct (update floats f m xs)
    unfolding update
    update-Distinct m [] h = (tt, tt)
    update-Distinct m (x ∷ xs) (hx, h) =
        if_ind Distinct (bytes_eq x.matched.id m.id) (λ _. (rw (keeps x) hx, h))
          (λ apart. (update-Fresh x.matched.id m xs apart hx, update-Distinct m xs h))

    module _ (s : F) (adds : (x : Fused F) → (f x).score ≡ floats.add x.score s) where
      score_at-update :
          (id : Bytes) (m : VectorMatch F) (xs : List (Fused F))
          → score_at id (update floats f m xs)
            ≡ (if bytes_eq m.id id then floats.add (score_at id xs) s else score_at id xs)
      unfolding update score_at
      score_at-update id m [] =
          rw
            (
              keeps (record { matched = m; score = floats.zero_score }),
              adds (record { matched = m; score = floats.zero_score }),
            )
            refl
      score_at-update id m (x ∷ xs) = elim (Bool-cases (bytes_eq x.matched.id m.id)) [
        | inl here ↦
            let e : bytes_eq x.matched.id id ≡ bytes_eq m.id id =
              ap (λ (k : Bytes). bytes_eq k id) (bytes_eq_sound x.matched.id m.id here) in
            elim (Bool-cases (bytes_eq m.id id)) [
              | inl t ↦ rw (here, keeps x, e ∙ t, t, adds x) refl
              | inr t ↦ rw (here, keeps x, e ∙ t, t) refl
            ]
        | inr next ↦ elim (Bool-cases (bytes_eq x.matched.id id)) [
          | inl t ↦ rw (next, t, bytes_eq-apart x.matched.id m.id id next t) refl
          | inr t ↦ rw (next, t) (score_at-update id m xs)
        ]
      ]

  pub own_scores :
      (xs : List (Fused F))
      → Distinct xs
      → All (λ (x : Fused F). score_at x.matched.id xs ≡ x.score) xs
  unfolding score_at
  own_scores [] h = tt
  own_scores (x ∷ xs) (hx, h) = (
    rw (bytes_eq_refl x.matched.id) refl,
    All-zip (λ (y : Fused F). bytes_eq x.matched.id y.matched.id ≡ false)
        (λ (y : Fused F). score_at y.matched.id xs ≡ y.score)
        (λ (y : Fused F). score_at y.matched.id (x ∷ xs) ≡ y.score) (λ y apart same. rw apart same)
        xs hx (own_scores xs h),
  )

  add_share-id : (s : F) (x : Fused F) → (add_share floats s x).matched.id ≡ x.matched.id
  unfolding add_share
  add_share-id s x = refl

  add_share-score : (s : F) (x : Fused F) → (add_share floats s x).score ≡ floats.add x.score s
  unfolding add_share
  add_share-score s x = refl

  filled-id :
      (s : F) (m : VectorMatch F) (x : Fused F)
      → (add_share floats s (fill_file floats m x)).matched.id ≡ x.matched.id
  unfolding add_share fill_file
  filled-id s m x =
      if_ind (λ (y : Fused F). y.matched.id ≡ x.matched.id) (length x.matched.file_id == 0)
        {x = record x { matched = record (x.matched) { file_id = m.file_id } }} {y = x} (λ _. refl)
        (λ _. refl)

  filled-score :
      (s : F) (m : VectorMatch F) (x : Fused F)
      → (add_share floats s (fill_file floats m x)).score ≡ floats.add x.score s
  unfolding add_share fill_file
  filled-score s m x =
      if_ind (λ (y : Fused F). floats.add y.score s ≡ floats.add x.score s)
        (length x.matched.file_id == 0)
        {x = record x { matched = record (x.matched) { file_id = m.file_id } }} {y = x} (λ _. refl)
        (λ _. refl)

  pub vector_loop-Distinct :
      (rank : ℕ) (ms : List (VectorMatch F)) (xs : List (Fused F))
      → Distinct xs
      → Distinct (vector_loop floats rank ms xs)
  unfolding vector_loop
  vector_loop-Distinct rank [] xs h = h
  vector_loop-Distinct rank (m ∷ ms) xs h =
      let s = share floats floats.vector_weight rank in
      vector_loop-Distinct (rank + 1) ms (update floats (add_share floats s) m xs)
        (update-Distinct (add_share floats s) (add_share-id s) m xs h)

  pub keyword_loop-Distinct :
      (rank : ℕ) (ms : List (VectorMatch F)) (xs : List (Fused F))
      → Distinct xs
      → Distinct (keyword_loop floats rank ms xs)
  unfolding keyword_loop
  keyword_loop-Distinct rank [] xs h = h
  keyword_loop-Distinct rank (m ∷ ms) xs h =
      let s = share floats floats.keyword_weight rank in
      let f = λ (x : Fused F). add_share floats s (fill_file floats m x) in
      keyword_loop-Distinct (rank + 1) ms (update floats f m xs)
        (update-Distinct f (filled-id s m) m xs h)

  pub score_at-vector_loop :
      (id : Bytes) (rank : ℕ) (ms : List (VectorMatch F)) (xs : List (Fused F))
      → score_at id (vector_loop floats rank ms xs)
        ≡ total floats.vector_weight id rank ms (score_at id xs)
  unfolding vector_loop total
  score_at-vector_loop id rank [] xs = refl
  score_at-vector_loop id rank (m ∷ ms) xs =
      let s = share floats floats.vector_weight rank in
      score_at-vector_loop id (rank + 1) ms (update floats (add_share floats s) m xs)
      ∙ ap (total floats.vector_weight id (rank + 1) ms)
          (score_at-update (add_share floats s) (add_share-id s) s (add_share-score s) id m xs)

  pub score_at-keyword_loop :
      (id : Bytes) (rank : ℕ) (ms : List (VectorMatch F)) (xs : List (Fused F))
      → score_at id (keyword_loop floats rank ms xs)
        ≡ total floats.keyword_weight id rank ms (score_at id xs)
  unfolding keyword_loop total
  score_at-keyword_loop id rank [] xs = refl
  score_at-keyword_loop id rank (m ∷ ms) xs =
      let s = share floats floats.keyword_weight rank in
      let f = λ (x : Fused F). add_share floats s (fill_file floats m x) in
      score_at-keyword_loop id (rank + 1) ms (update floats f m xs)
      ∙ ap (total floats.keyword_weight id (rank + 1) ms)
          (score_at-update f (filled-id s m) s (filled-score s m) id m xs)
