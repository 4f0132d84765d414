-- ===== src/EmbeddingCache/Bounds.antt =====
-- The cache stays within its maximal size between calls.
use fileprocessor.Base.{
  ℕ, suc, ◌+◌, ◌≤◌, ◌<◌, ◌≡◌, refl, ap, ◌⊎◌, inl, inr, Option, none, some, List, [], ◌∷◌, map,
  arith, ◌==◌, if◌then◌else◌, if_ind, Bytes, bytes_eq, ℤ, to_ℕ, length, get_elem?-some, All,
  length-map,
}
use fileprocessor.EmbeddingCache.{
  EntryMap, EmbeddingCache, Scan, Outcome, returned, lookup, find_fresh, bump, record_hit,
  record_miss, note, place, scan, store, trim_to_size, finished, finish, answer, embed,
}
use fileprocessor.EmbeddingCache.Eviction.{length-trim_to_size}

module _ {V : Type 0} where
  -- No more entries than the maximal size, none if that is negative.
  abbrev pub IsBounded : EmbeddingCache V → Type 0
  IsBounded c = length c.cache ≤ to_ℕ c.max_size

  length-bump : (k : Bytes) (m : EntryMap V) → length (bump k m) ≡ length m
  unfolding bump
  length-bump k [] = refl
  length-bump k ((j, d) ∷ m) =
      if_ind (λ (n : EntryMap V). length n ≡ suc (length m)) (bytes_eq j k) (λ _. refl)
        (λ _. ap suc (length-bump k m))

  note-IsBounded :
      (hash : Bytes → Bytes) (t : Bytes) (found : Option V) (c : EmbeddingCache V)
      → IsBounded c
      → IsBounded (note hash t found c)
  unfolding note record_miss record_hit
  note-IsBounded hash t none c h = h
  note-IsBounded hash t (some v) c h = omega (arith, h, length-bump (hash t) c.cache)

  pub after_place :
      (i : ℕ) (t : Bytes) (found : Option V) (s : Scan V) → (place i t found s).after ≡ s.after
  unfolding place
  after_place i t none s = refl
  after_place i t (some v) s = refl

  scan-IsBounded :
      (hash : Bytes → Bytes) (clock : ℕ → ℕ) (i : ℕ) (ts : List Bytes) (c : EmbeddingCache V)
      → IsBounded c
      → IsBounded (scan hash clock i ts c).after
  unfolding scan
  scan-IsBounded hash clock i [] c h = h
  scan-IsBounded hash clock i (t ∷ ts) c h =
      let found = find_fresh c.ttl (clock i) (lookup (hash t) c.cache) in
      let rest = scan hash clock (i + 1) ts (note hash t found c) in
      rw (after_place i t found rest) (
        scan-IsBounded hash clock (i + 1) ts (note hash t found c)
          (note-IsBounded hash t found c h))

  trim_to_size-IsBounded :
      (max_size : ℤ) (m : EntryMap V) → length (trim_to_size max_size m) ≤ to_ℕ max_size
  trim_to_size-IsBounded max_size m = omega (arith, length-trim_to_size max_size m)

  length-place :
      (i : ℕ) (t : Bytes) (found : Option V) (s : Scan V)
      → length s.to_embed_idx ≡ length s.to_embed
      → length (place i t found s).to_embed_idx ≡ length (place i t found s).to_embed
  unfolding place
  length-place i t none s h = ap suc h
  length-place i t (some v) s h = h

  -- The places that a scan of texts from index `i` on leaves, one for each text to embed.
  length-scan :
      (hash : Bytes → Bytes) (clock : ℕ → ℕ) (i : ℕ) (ts : List Bytes) (c : EmbeddingCache V)
      → length (scan hash clock i ts c).to_embed_idx ≡ length (scan hash clock i ts c).to_embed
  unfolding scan
  length-scan hash clock i [] c = refl
  length-scan hash clock i (t ∷ ts) c =
      let found = find_fresh c.ttl (clock i) (lookup (hash t) c.cache) in
      length-place i t found _ (length-scan hash clock (i + 1) ts (note hash t found c))

  place-Within :
      (n i : ℕ) (t : Bytes) (found : Option V) (s : Scan V)
      → i < n
      → All (λ (j : ℕ). j < n) s.to_embed_idx
      → All (λ (j : ℕ). j < n) (place i t found s).to_embed_idx
  unfolding place
  place-Within n i t none s first h = (first, h)
  place-Within n i t (some v) s first h = h

  scan-Within :
      (hash : Bytes → Bytes) (clock : ℕ → ℕ) (n i : ℕ) (ts : List Bytes) (c : EmbeddingCache V)
      → i + length ts ≡ n
      → All (λ (j : ℕ). j < n) (scan hash clock i ts c).to_embed_idx
  unfolding scan
  scan-Within hash clock n i [] c e = tt
  scan-Within hash clock n i (t ∷ ts) c e =
      let found = find_fresh c.ttl (clock i) (lookup (hash t) c.cache) in
      place-Within n i t found _ (omega (arith, e))
        (scan-Within hash clock n (i + 1) ts (note hash t found c) (omega (arith, e)))

  -- The loop ends if there are no more embeddings than places, all of them places of a hash.
  store-ends :
      (hashes : List Bytes) (clock : ℕ → ℕ) (embs : List V) (idxs : List ℕ)
      (results : List (Option V)) (m : EntryMap V)
      → length embs ≤ length idxs
      → All (λ (j : ℕ). j < length hashes) idxs
      → (results' : List (Option V)) × (m' : EntryMap V) × (store hashes clock embs idxs results m
          ≡ (some results', m'))
  unfolding store
  store-ends hashes clock [] idxs results m fit within = (results, m, refl)
  store-ends hashes clock (emb ∷ embs) [] results m fit within = absurd (omega (arith, fit))
  store-ends hashes clock (emb ∷ embs) (idx ∷ idxs) results m fit (here, within) =
      let (h, found) = get_elem?-some hashes idx here in
      rw (found, store) (store-ends hashes clock embs idxs _ _ (omega (arith, fit)) within)

-- The call returned, or returned an error.
abbrev pub HasEnded : {E V : Type 0} → Outcome E V → Type 0
HasEnded (Outcome.returned results) = Unit
HasEnded (Outcome.failed err) = Unit
HasEnded Outcome.panicked = ⊥

-- The call has ended and left the cache within its maximal size.
abbrev pub EndsBounded : {E V : Type 0} → Outcome E V × EmbeddingCache V → Type 0
EndsBounded r = HasEnded r.0 × IsBounded r.1

module _ {E V : Type 0} (hash : Bytes → Bytes) where
  answer-EndsBounded :
      (clock : ℕ → ℕ) (texts : List Bytes) (got : E ⊎ List V) (s : Scan V) (c : EmbeddingCache V)
      → ((embs : List V) → got ≡ inr embs → length embs ≤ length s.to_embed)
      → length s.to_embed_idx ≡ length s.to_embed
      → All (λ (j : ℕ). j < length (map hash texts)) s.to_embed_idx
      → IsBounded c
      → EndsBounded (answer hash clock texts got s c)
  unfolding answer finish finished
  answer-EndsBounded clock texts (inl err) s c fit count within h = (tt, h)
  answer-EndsBounded clock texts (inr embs) s c fit count within h =
      let enough : length embs ≤ length s.to_embed_idx = omega (arith, fit embs refl, count) in
      let (results, m, stored) =
        store-ends (map hash texts) clock embs s.to_embed_idx s.results c.cache enough within in
      rw stored (tt, trim_to_size-IsBounded c.max_size m)

  -- If the embedder never returns more vectors than it is given texts, a call of `Embed` on a cache
  -- within its maximal size does not panic and leaves it within that size, also where the embedder
  -- fails or returns too few vectors.
  pub embed-EndsBounded :
      (clock clock' : ℕ → ℕ) (inner : List Bytes → E ⊎ List V) (texts : List Bytes)
      (c : EmbeddingCache V)
      → ((ts : List Bytes) (embs : List V) → inner ts ≡ inr embs → length embs ≤ length ts)
      → IsBounded c
      → EndsBounded (embed hash clock clock' inner texts c)
  unfolding embed
  embed-EndsBounded clock clock' inner texts c fit h =
      let s = scan hash clock 0 texts c in
      let h' = scan-IsBounded hash clock 0 texts c h in
      if_ind EndsBounded (length texts == 0) {x = (returned [], c)}
        {y = if length s.to_embed == 0
          then (returned s.results, s.after)
          else answer hash clock' texts (inner s.to_embed) s s.after}
        (λ _. (tt, h))
        (λ _.
          if_ind EndsBounded (length s.to_embed == 0) {x = (returned s.results, s.after)}
            {y = answer hash clock' texts (inner s.to_embed) s s.after} (λ _. (tt, h'))
            (λ _.
              answer-EndsBounded clock' texts (inner s.to_embed) s s.after (fit s.to_embed)
                (length-scan hash clock 0 texts c)
                (scan-Within hash clock (length (map hash texts)) 0 texts c
                  (omega (arith, length-map hash texts)))
                h'))
