-- ===== src/EmbeddingCache/Transparent.antt =====
-- A cache in front of an embedder gives what the embedder gives.
use mathlib.Core.Option.{some-injective}
use mathlib.Core.Path.{subst}
use fileprocessor.Base.{
  ℕ, ◌+◌, ◌≡◌, refl, sym, ap, ◌∙◌, inl, inr, ◌||◌, Option, none, some, List, [], ◌∷◌, ◌++◌, map,
  ◌==◌, if_ind, Bool-cases, Bytes, bytes_eq, bytes_eq_sound, ℤ, exceeds, length, get_elem?, set,
  length-snoc, snoc-append, get_elem?-append, set-append, All,
}
use fileprocessor.EmbeddingCache.{
  Entry, EntryMap, EmbeddingCache, Scan, lookup, insert, bump, is_fresh, find_fresh, record_hit,
  record_miss, note, place, scan, store, sort_by_age, evict_oldest, trim_to_size,
}
use fileprocessor.EmbeddingCache.{excess, place}
use fileprocessor.EmbeddingCache.Bounds.{after_place}
use fileprocessor.EmbeddingCache.Eviction.{sort_by_age-All, drop-All}

module _ {V : Type 0} (hash : Bytes → Bytes) (Seen : Bytes → Type 0)
    (no_collision : (s t : Bytes) → Seen s → Seen t → hash s ≡ hash t → s ≡ t) (e : Bytes → V) where
  -- Every entry holds the embedding of each text that the program sees with its hash.
  abbrev pub IsRight : Bytes × Entry V → Type 0
  IsRight x = (t : Bytes) → Seen t → hash t ≡ x.0 → x.1.embedding ≡ e t

  abbrev pub Coherent : EntryMap V → Type 0
  Coherent = All IsRight

  lookup-Coherent :
      (t : Bytes) (m : EntryMap V) (x : Entry V)
      → Seen t
      → Coherent m
      → lookup (hash t) m ≡ some x
      → x.embedding ≡ e t
  unfolding lookup
  lookup-Coherent t [] x seen h eq = cc
  lookup-Coherent t ((j, d) ∷ m) x seen (right, h) eq = elim (Bool-cases (bytes_eq j (hash t))) [
    | inl here ↦
        let same : some d ≡ some x = sym (rw here) ∙ eq in
        ap (λ (y : Entry V). y.embedding) (sym (some-injective _ _ same))
        ∙ right t seen (sym (bytes_eq_sound j (hash t) here))
    | inr next ↦ lookup-Coherent t m x seen h (sym (rw next) ∙ eq)
  ]

  insert-Coherent :
      (t : Bytes) (x : Entry V) (m : EntryMap V)
      → Seen t
      → x.embedding ≡ e t
      → Coherent m
      → Coherent (insert (hash t) x m)
  unfolding insert
  insert-Coherent t x [] seen right h =
      ((λ u seen' same. right ∙ ap e (no_collision t u seen seen' (sym same))), tt)
  insert-Coherent t x ((j, d) ∷ m) seen right (right', h) =
      if_ind Coherent (bytes_eq j (hash t))
        (λ _. ((λ u seen' same. right ∙ ap e (no_collision t u seen seen' (sym same))), h))
        (λ _. (right', insert-Coherent t x m seen right h))

  bump-Coherent : (k : Bytes) (m : EntryMap V) → Coherent m → Coherent (bump k m)
  unfolding bump
  bump-Coherent k [] h = tt
  bump-Coherent k ((j, d) ∷ m) (right, h) =
      if_ind Coherent (bytes_eq j k) (λ _. (right, h)) (λ _. (right, bump-Coherent k m h))

  pub trim_to_size-Coherent :
      (max_size : ℤ) (m : EntryMap V) → Coherent m → Coherent (trim_to_size max_size m)
  unfolding trim_to_size evict_oldest
  trim_to_size-Coherent max_size m h =
      if_ind Coherent (exceeds (length m) max_size)
        (λ _.
          if_ind Coherent (excess (length m) max_size == 0 || length m == 0) (λ _. h)
            (λ _.
              drop-All IsRight (excess (length m) max_size) (sort_by_age m)
                (sort_by_age-All IsRight m h)))
        (λ _. h)

  find_fresh-right :
      (t : Bytes) (ttl : ℤ) (now : ℕ) (found : Option (Entry V)) (v : V)
      → ((x : Entry V) → found ≡ some x → x.embedding ≡ e t)
      → find_fresh ttl now found ≡ some v
      → v ≡ e t
  unfolding find_fresh
  find_fresh-right t ttl now none v h eq = cc
  find_fresh-right t ttl now (some x) v h eq = elim (Bool-cases (is_fresh ttl now x)) [
    | inl fresh ↦
        let same : some x.embedding ≡ some v = sym (rw fresh) ∙ eq in
        sym (some-injective _ _ same) ∙ h x refl
    | inr stale ↦ let same : none ≡ some v = sym (rw stale) ∙ eq in cc
  ]

  -- Whatever the texts before them left, the embeddings of the texts that a scan left complete its
  -- results, and the map stays right.
  abbrev pub Filled : (ℕ → ℕ) → ℕ → List Bytes → Scan V → Type 0
  Filled clock i ts s =
      (before : List (Option V)) (hashes : List Bytes) (m : EntryMap V)
      → length before ≡ i
      → length hashes ≡ i
      → Coherent m
      → (m' : EntryMap V) × (store (hashes ++ map hash ts) clock (map e s.to_embed) s.to_embed_idx
            (before ++ s.results) m
          ≡ (some (before ++ map (λ (t : Bytes). some (e t)) ts), m'))
        × Coherent m'

  store_step :
      (hashes : List Bytes) (clock : ℕ → ℕ) (v : V) (embs : List V) (i : ℕ) (idxs : List ℕ)
      (results : List (Option V)) (m : EntryMap V) (h : Bytes)
      → get_elem? hashes i ≡ some h
      → store hashes clock (v ∷ embs) (i ∷ idxs) results m
        ≡ store hashes clock embs idxs
            (set results i (some v))
            (insert h (record { embedding = v; created_at = clock i; hit_count = 0 }) m)
  unfolding store
  store_step hashes clock v embs i idxs results m h found = rw (found, store) refl

  place-Filled :
      (clock : ℕ → ℕ) (i : ℕ) (t : Bytes) (ts : List Bytes) (found : Option V) (s : Scan V)
      → Seen t
      → ((v : V) → found ≡ some v → v ≡ e t)
      → Filled clock (i + 1) ts s
      → Filled clock i (t ∷ ts) (place i t found s)
  unfolding place
  place-Filled clock i t ts (some v) s seen right fill before hashes m lb lh h =
      let (m', eq, h') =
        fill (before ++ some v ∷ []) (hashes ++ hash t ∷ []) m
          (length-snoc before (some v) ∙ ap (λ (n : ℕ). n + 1) lb)
          (length-snoc hashes (hash t) ∙ ap (λ (n : ℕ). n + 1) lh) h in
      (
        m',
        rw
            (
              sym (snoc-append hashes (hash t) (map hash ts)),
              sym (right v refl),
              sym (snoc-append before (some v) s.results),
              sym (snoc-append before (some v) (map (λ (u : Bytes). some (e u)) ts)),
            )
            eq,
        h',
      )
  place-Filled clock i t ts none s seen right fill before hashes m lb lh h =
      let x : Entry V = record { embedding = e t; created_at = clock i; hit_count = 0 } in
      let (m', eq, h') =
        fill (before ++ some (e t) ∷ []) (hashes ++ hash t ∷ []) (insert (hash t) x m)
          (length-snoc before (some (e t)) ∙ ap (λ (n : ℕ). n + 1) lb)
          (length-snoc hashes (hash t) ∙ ap (λ (n : ℕ). n + 1) lh)
          (insert-Coherent t x m seen refl h) in
      let got : get_elem? (hashes ++ hash t ∷ map hash ts) i ≡ some (hash t) =
        subst (λ (n : ℕ). get_elem? (hashes ++ hash t ∷ map hash ts) n ≡ some (hash t)) lh
          (get_elem?-append hashes (hash t) (map hash ts)) in
      let put : set (before ++ none ∷ s.results) i (some (e t)) ≡ before ++ some (e t) ∷ s.results =
        subst
          (λ (n : ℕ).
            set (before ++ none ∷ s.results) n (some (e t)) ≡ before ++ some (e t) ∷ s.results)
          lb (set-append before none (some (e t)) s.results) in
      (
        m',
        store_step (hashes ++ hash t ∷ map hash ts) clock (e t) (map e s.to_embed) i s.to_embed_idx
              (before ++ none ∷ s.results) m (hash t) got
            ∙ rw
                (
                  put,
                  sym (snoc-append hashes (hash t) (map hash ts)),
                  sym (snoc-append before (some (e t)) s.results),
                  sym (snoc-append before (some (e t)) (map (λ (u : Bytes). some (e u)) ts)),
                )
                eq,
        h',
      )

  note-Coherent :
      (t : Bytes) (found : Option V) (c : EmbeddingCache V)
      → Coherent c.cache
      → Coherent (note hash t found c).cache
  unfolding note record_miss record_hit
  note-Coherent t none c h = h
  note-Coherent t (some v) c h = bump-Coherent (hash t) c.cache h

  -- A scan leaves exactly what the store phase needs, whatever the map is by then.
  pub scan-Filled :
      (read clock : ℕ → ℕ) (i : ℕ) (ts : List Bytes) (c : EmbeddingCache V)
      → All Seen ts
      → Coherent c.cache
      → Filled clock i ts (scan hash read i ts c)
  unfolding scan store
  scan-Filled read clock i [] c all_seen h = λ before hashes m lb lh hm. (m, refl, hm)
  scan-Filled read clock i (t ∷ ts) c (seen, all_seen) h =
      let found = find_fresh c.ttl (read i) (lookup (hash t) c.cache) in
      place-Filled clock i t ts found (scan hash read (i + 1) ts (note hash t found c)) seen
        (λ v eq.
          find_fresh-right t c.ttl (read i) (lookup (hash t) c.cache) v
            (λ x here. lookup-Coherent t c.cache x seen h here) eq)
        (scan-Filled read clock (i + 1) ts (note hash t found c) all_seen
          (note-Coherent t found c h))

  pub scan-Coherent :
      (read : ℕ → ℕ) (i : ℕ) (ts : List Bytes) (c : EmbeddingCache V)
      → Coherent c.cache
      → Coherent (scan hash read i ts c).after.cache
  unfolding scan
  scan-Coherent read i [] c h = h
  scan-Coherent read i (t ∷ ts) c h =
      let found = find_fresh c.ttl (read i) (lookup (hash t) c.cache) in
      let rest = scan hash read (i + 1) ts (note hash t found c) in
      rw (after_place i t found rest)
        (scan-Coherent read (i + 1) ts (note hash t found c) (note-Coherent t found c h))
