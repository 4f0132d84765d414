-- ===== src/EmbeddingCache/Interleaving.antt =====
-- Calls of a cache that run to the end, and calls between whose critical sections others run.
use mathlib.Core.Option.{some-injective}
use fileprocessor.Base.{
  ℕ, ◌≡◌, refl, sym, ap, ◌∙◌, ◌⊎◌, inr, true, false, Option, some, List, [], ◌∷◌, map, arith, ◌==◌,
  if_ind, Bytes, length, All,
}
use fileprocessor.EmbeddingCache.{
  trim_to_size, EntryMap, EmbeddingCache, Scan, Outcome, returned, scan, store, finished, finish,
  answer, embed,
}
use fileprocessor.EmbeddingCache.Transparent.{
  Coherent, Filled, scan-Filled, scan-Coherent, trim_to_size-Coherent,
}

module _ {V : Type 0} (hash : Bytes → Bytes) (Seen : Bytes → Type 0)
    (no_collision : (s t : Bytes) → Seen s → Seen t → hash s ≡ hash t → s ≡ t) (e : Bytes → V) where
  store_nothing :
      (hashes : List Bytes) (clock : ℕ → ℕ) (ts : List Bytes) (idxs : List ℕ)
      (results : List (Option V)) (m : EntryMap V)
      → length ts == 0 ≡ true
      → store hashes clock (map e ts) idxs results m ≡ (some results, m)
  unfolding store
  store_nothing hashes clock [] idxs results m none_left = refl
  store_nothing hashes clock (t ∷ ts) idxs results m none_left = ground (arith, none_left)

  results_full :
      (clock : ℕ → ℕ) (texts : List Bytes) (s : Scan V) (c : EmbeddingCache V)
      → Filled hash Seen no_collision e clock 0 texts s
      → Coherent hash Seen no_collision e c.cache
      → length s.to_embed == 0 ≡ true
      → s.results ≡ map (λ (t : Bytes). some (e t)) texts
  results_full clock texts s c fill h none_left =
      let (m', eq, h') = fill [] [] c.cache refl refl h in
      some-injective _ _ (
        ap (λ (p : Option (List (Option V)) × EntryMap V). p.0)
          (sym (
              store_nothing (map hash texts) clock s.to_embed s.to_embed_idx s.results c.cache
                none_left)
            ∙ eq))

finish_step :
    {E V : Type 0} (hashes : List Bytes) (clock : ℕ → ℕ) (embs : List V) (idxs : List ℕ)
    (results results' : List (Option V)) (c : EmbeddingCache V) (m : EntryMap V)
    → store hashes clock embs idxs results c.cache ≡ (some results', m)
    → finish {E = E} hashes clock embs idxs results c
      ≡ (returned results', record c { cache = trim_to_size c.max_size m })
unfolding finish finished
finish_step hashes clock embs idxs results results' c m eq = rw eq refl

module _ {E V : Type 0} (hash : Bytes → Bytes) (Seen : Bytes → Type 0)
    (no_collision : (s t : Bytes) → Seen s → Seen t → hash s ≡ hash t → s ≡ t) (e : Bytes → V) where
  -- The call returned the embedding of each text, and the map is right after it.
  abbrev pub Answers : List Bytes → Outcome E V × EmbeddingCache V → Type 0
  Answers texts (out, c) =
      (out ≡ returned (map (λ (t : Bytes). some (e t)) texts))
      × Coherent hash Seen no_collision e c.cache

  answer-Answers :
      (clock : ℕ → ℕ) (texts : List Bytes) (s : Scan V) (c : EmbeddingCache V)
      → Filled hash Seen no_collision e clock 0 texts s
      → Coherent hash Seen no_collision e c.cache
      → Answers texts (answer hash clock texts (inr (map e s.to_embed)) s c)
  unfolding answer
  answer-Answers clock texts s c fill h =
      let (m', eq, h') = fill [] [] c.cache refl refl h in
      let done =
        finish_step {E = E} (map hash texts) clock (map e s.to_embed) s.to_embed_idx s.results
          (map (λ (t : Bytes). some (e t)) texts) c m' eq in
      rw done (refl, trim_to_size-Coherent hash Seen no_collision e c.max_size m' h')

  -- If no two of the texts that the program sees have the same hash, and the embedder never fails and
  -- embeds each text by `e`, then on a map whose entries are right `Embed` returns the embedding of
  -- each text in order and leaves a map whose entries are right, whatever the clock, the maximal
  -- size and the time to live.
  pub embed-Answers :
      (clock clock' : ℕ → ℕ) (inner : List Bytes → E ⊎ List V) (texts : List Bytes)
      (c : EmbeddingCache V)
      → ((ts : List Bytes) → inner ts ≡ inr (map e ts))
      → All Seen texts
      → Coherent hash Seen no_collision e c.cache
      → Answers texts (embed hash clock clock' inner texts c)
  unfolding embed
  embed-Answers clock clock' inner [] c right seen h = (refl, h)
  embed-Answers clock clock' inner (t ∷ ts) c right seen h =
      let s = scan hash clock 0 (t ∷ ts) c in
      let fill = scan-Filled hash Seen no_collision e clock clock' 0 (t ∷ ts) c seen h in
      let h' = scan-Coherent hash Seen no_collision e clock 0 (t ∷ ts) c h in
      let some_there : length (t ∷ ts) == 0 ≡ false = ground arith in
      rw some_there (
        if_ind (λ (r : Outcome E V × EmbeddingCache V). Answers (t ∷ ts) r) (length s.to_embed == 0)
          {x = (returned s.results, s.after)}
          {y = answer hash clock' (t ∷ ts) (inner s.to_embed) s s.after}
          (λ none_left. (
            ap returned
                (results_full hash Seen no_collision e clock' (t ∷ ts) s s.after fill h' none_left),
            h',
          ))
          (λ some_left. rw (right s.to_embed) (answer-Answers clock' (t ∷ ts) s s.after fill h')))

  -- If no two of the texts that the program sees have the same hash, the critical sections of a call
  -- may lie apart: the second gives the embedding of each text on every map whose entries are right,
  -- not only on the one that the first, run earlier on another such map, left, once the embedder has
  -- embedded by `e` the texts that the first section left to it.
  pub interleaved-Answers :
      (clock clock' : ℕ → ℕ) (texts : List Bytes) (before c : EmbeddingCache V)
      → All Seen texts
      → Coherent hash Seen no_collision e before.cache
      → Coherent hash Seen no_collision e c.cache
      → Answers texts (
          answer hash clock' texts
            (inr (map e (scan hash clock 0 texts before).to_embed))
            (scan hash clock 0 texts before)
            c)
  interleaved-Answers clock clock' texts before c seen h h' =
      answer-Answers clock' texts (scan hash clock 0 texts before) c
        (scan-Filled hash Seen no_collision e clock clock' 0 texts before seen h) h'
