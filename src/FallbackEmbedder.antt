-- ===== src/FallbackEmbedder.antt =====
-- fallback_embedder.go: an embedder with a second one behind it.
use fileprocessor.Base.{
  ℕ, ◌≡◌, refl, sym, ap, ◌∙◌, ◌⊎◌, inl, inr, Bool, true, false, ◌||◌, Option, none, some, List,
  if◌then◌else◌, Bool-cases, Bytes, codes,
}
use fileprocessor.Text.{contains}

-- The embedders give vectors or an error, whose text is all that is read of it. `fallback` may be
-- nil.
pub record FallbackEmbedder (V : Type 0) : Type 0 where
  pub primary : List Bytes → Bytes ⊎ List V
  pub primary_dimension : ℕ
  pub fallback : Option (List Bytes → Bytes ⊎ List V)

unfoldable pub is_credit_error : Bytes → Bool
is_credit_error msg = contains msg (codes "HTTP 402") || contains msg (codes "HTTP 403")

module _ {V : Type 0} where
  -- After an error of the primary embedder.
  unfoldable pub retry : Option (List Bytes → Bytes ⊎ List V) → List Bytes → Bytes → Bytes ⊎ List V
  retry none texts err = inl err
  retry (some fallback) texts err = if is_credit_error err then fallback texts else inl err

  unfoldable pub after_primary :
      Option (List Bytes → Bytes ⊎ List V) → List Bytes → Bytes ⊎ List V → Bytes ⊎ List V
  after_primary fallback texts (inr vecs) = inr vecs
  after_primary fallback texts (inl err) = retry fallback texts err

  -- `FallbackEmbedder.Embed`.
  unfoldable pub embed_with_fallback : FallbackEmbedder V → List Bytes → Bytes ⊎ List V
  embed_with_fallback f texts = after_primary f.fallback texts (f.primary texts)

  -- `FallbackEmbedder.Dimension`.
  unfoldable dimension : FallbackEmbedder V → ℕ
  dimension f = f.primary_dimension

  -- How a call comes to fail: the answer of the primary embedder is an error, and either that error
  -- is returned, being no credit error or without a fallback, or it is a credit error and the error
  -- of the fallback is returned.
  abbrev pub FailsBy :
      Option (List Bytes → Bytes ⊎ List V) → List Bytes → Bytes ⊎ List V → Bytes → Type 0
  FailsBy fallback texts answer err =
      (first : Bytes) × (answer ≡ inl first)
      × (((first ≡ err) × ((is_credit_error err ≡ false) ⊎ (fallback ≡ none)))
          ⊎ ((is_credit_error first ≡ true)
              × (second : List Bytes → Bytes ⊎ List V) × (fallback ≡ some second)
              × (second texts ≡ inl err)))

  after_primary-FailsBy :
      (fallback : Option (List Bytes → Bytes ⊎ List V)) (texts : List Bytes)
      (answer : Bytes ⊎ List V) (err : Bytes)
      → after_primary fallback texts answer ≡ inl err
      → FailsBy fallback texts answer err
  unfolding after_primary retry
  after_primary-FailsBy fallback texts (inr vecs) err failed = cc
  after_primary-FailsBy none texts (inl first) err failed =
      let same : first ≡ err = cc in (first, refl, inl (same, inr refl))
  after_primary-FailsBy (some second) texts (inl first) err failed =
      elim (Bool-cases (is_credit_error first)) [
        | inl credit ↦
            let asked : second texts ≡ inl err = sym (rw credit) ∙ failed in
            (first, refl, inr (credit, second, refl, asked))
        | inr other ↦
            let kept : inl first ≡ inl err = sym (rw other) ∙ failed in
            let same : first ≡ err = cc in
            (first, refl, inl (same, inl (sym (ap is_credit_error same) ∙ other)))
      ]

  -- A call fails only if the primary embedder fails, and then it returns either the error of the
  -- primary embedder, which is no credit error unless there is no fallback, or, after a credit
  -- error, the error of the fallback on the same texts.
  pub embed_with_fallback-FailsBy :
      (f : FallbackEmbedder V) (texts : List Bytes) (err : Bytes)
      → embed_with_fallback f texts ≡ inl err
      → FailsBy f.fallback texts (f.primary texts) err
  unfolding embed_with_fallback
  embed_with_fallback-FailsBy f texts err failed =
      after_primary-FailsBy f.fallback texts (f.primary texts) err failed
