-- ===== src/EmbeddingCache.antt =====
-- rag_cache.go: the cache in front of an embedder. Times are the readings of the clock, counted
-- from some origin; durations are in nanoseconds.
pub mod Eviction
pub mod Bounds
pub mod Transparent
pub mod Interleaving
use fileprocessor.Base.{
  ℕ, ◌+◌, ◌-◌, ◌*◌, ◌⊎◌, inl, inr, Bool, false, ◌||◌, Option, none, some, List, [], ◌∷◌, map, ltb,
  leb, ◌==◌, if◌then◌else◌, Bytes, bytes_eq, ℤ, exceeds, pos, negsuc, length, get_elem?, set, drop,
}

pub record Entry (V : Type 0) : Type 0 where
  pub embedding : V
  pub created_at : ℕ
  pub hit_count : ℕ

pub record CacheStats : Type 0 where
  pub hits : ℕ
  pub misses : ℕ
  pub size : ℕ
  pub total_saved : ℕ

pub record CacheConfig : Type 0 where
  pub max_size : ℤ
  pub ttl : ℤ
  pub avg_embed_ms : ℕ

-- The map of the cache has distinct keys; the order of the list is the order of an iteration.
abbrev pub EntryMap : Type 0 → Type 0
EntryMap V = List (Bytes × Entry V)

pub record EmbeddingCache (V : Type 0) : Type 0 where
  pub cache : EntryMap V
  pub max_size : ℤ
  pub ttl : ℤ
  pub avg_embed_ms : ℕ
  pub stats : CacheStats

abbrev pub no_stats : CacheStats
no_stats = record { hits = 0; misses = 0; size = 0; total_saved = 0 }

abbrev default_config : CacheConfig
default_config = record { max_size = pos 10000; ttl = pos 86_400_000_000_000; avg_embed_ms = 100 }

unfoldable new_embedding_cache : {V : Type 0} → Option CacheConfig → EmbeddingCache V
new_embedding_cache given =
    let config : CacheConfig = elim given [ none ↦ default_config | some c ↦ c ] in
    record {
      cache = [];
      max_size = config.max_size;
      ttl = config.ttl;
      avg_embed_ms = config.avg_embed_ms;
      stats = no_stats;
    }

module _ {V : Type 0} where
  unfoldable pub lookup : Bytes → EntryMap V → Option (Entry V)
  lookup k [] = none
  lookup k ((j, e) ∷ m) = if bytes_eq j k then some e else lookup k m

  -- `c.cache[k] = e`.
  unfoldable pub insert : Bytes → Entry V → EntryMap V → EntryMap V
  insert k e [] = (k, e) ∷ []
  insert k e ((j, d) ∷ m) = if bytes_eq j k then (k, e) ∷ m else (j, d) ∷ insert k e m

  -- `entry.hitCount++` through the pointer in the map.
  unfoldable pub bump : Bytes → EntryMap V → EntryMap V
  bump k [] = []
  bump k ((j, e) ∷ m) =
      if bytes_eq j k then (j, record e { hit_count = e.hit_count + 1 }) ∷ m else (j, e) ∷ bump k m

  -- `c.ttl == 0 || time.Since(entry.createdAt) < c.ttl`.
  unfoldable pub is_fresh : ℤ → ℕ → Entry V → Bool
  is_fresh (pos ttl) now e = ttl == 0 || ltb (now - e.created_at) ttl
  is_fresh (negsuc ttl) now e = false

  unfoldable pub record_hit : EmbeddingCache V → EmbeddingCache V
  record_hit c = record c {
    stats = record (c.stats) {
      hits = c.stats.hits + 1;
      total_saved = c.stats.total_saved + c.avg_embed_ms * 1_000_000;
    };
  }

  unfoldable pub record_miss : EmbeddingCache V → EmbeddingCache V
  record_miss c = record c { stats = record (c.stats) { misses = c.stats.misses + 1 } }

-- What the loop under the read lock leaves: the results so far, `none` where there is none yet, the
-- texts to embed and their places, and the cache with its counters.
pub record Scan (V : Type 0) : Type 0 where
  pub results : List (Option V)
  pub to_embed : List Bytes
  pub to_embed_idx : List ℕ
  pub after : EmbeddingCache V

-- The entry under the hash, if it is fresh.
unfoldable pub find_fresh : {V : Type 0} → ℤ → ℕ → Option (Entry V) → Option V
find_fresh ttl now none = none
find_fresh ttl now (some e) = if is_fresh ttl now e then some e.embedding else none

module _ {V : Type 0} where
  unfoldable pub place : ℕ → Bytes → Option V → Scan V → Scan V
  place i text (some v) s = record s { results = some v ∷ s.results }
  place i text none s = record s {
    results = none ∷ s.results;
    to_embed = text ∷ s.to_embed;
    to_embed_idx = i ∷ s.to_embed_idx;
  }

module _ {V : Type 0} (hash : Bytes → Bytes) where
  unfoldable pub note : Bytes → Option V → EmbeddingCache V → EmbeddingCache V
  note text none c = record_miss c
  note text (some v) c = record_hit (record c { cache = bump (hash text) c.cache })

  -- The loop at index `i`; `clock i` is the time that its round reads.
  unfoldable pub scan : (ℕ → ℕ) → ℕ → List Bytes → EmbeddingCache V → Scan V
  scan clock i [] c = record { results = []; to_embed = []; to_embed_idx = []; after = c }
  scan clock i (text ∷ texts) c =
      let found = find_fresh c.ttl (clock i) (lookup (hash text) c.cache) in
      place i text found (scan clock (i + 1) texts (note text found c))

-- `len(c.cache) - c.maxSize`.
unfoldable pub excess : ℕ → ℤ → ℕ
excess n (pos m) = n - m
excess n (negsuc m) = n + (m + 1)

-- The call returns, returns the embedder's error, or panics.
pub data Outcome (E V : Type 0) : Type 0 where
  returned : List (Option V) → Outcome E V
  failed : E → Outcome E V
  panicked : Outcome E V

module _ {V : Type 0} where
  -- The loop under the write lock: each embedding goes to its place in the results and under its
  -- hash into the map. `none` is the panic of an index out of range, which leaves the map as it is by
  -- then.
  unfoldable pub store :
      List Bytes
      → (ℕ → ℕ)
      → List V
      → List ℕ
      → List (Option V)
      → EntryMap V
      → Option (List (Option V)) × EntryMap V
  store hashes clock [] idxs results m = (some results, m)
  store hashes clock (emb ∷ embs) [] results m = (none, m)
  store hashes clock (emb ∷ embs) (idx ∷ idxs) results m = elim (get_elem? hashes idx) [
    | none ↦ (none, m)
    | some h ↦
        store hashes clock embs idxs (set results idx (some emb))
          (insert h (record { embedding = emb; created_at = clock idx; hit_count = 0 }) m)
  ]

  -- `sort.Slice` by the time of creation.
  unfoldable pub insert_by_age : (Bytes × Entry V) → EntryMap V → EntryMap V
  insert_by_age x [] = x ∷ []
  insert_by_age x (y ∷ ys) =
      if leb x.1.created_at y.1.created_at then x ∷ y ∷ ys else y ∷ insert_by_age x ys

  unfoldable pub sort_by_age : EntryMap V → EntryMap V
  sort_by_age [] = []
  sort_by_age (x ∷ xs) = insert_by_age x (sort_by_age xs)

  -- Deleting the keys of the first `count` sorted entries leaves the entries behind them.
  unfoldable pub evict_oldest : ℕ → EntryMap V → EntryMap V
  evict_oldest count m = if count == 0 || length m == 0 then m else drop count (sort_by_age m)

  unfoldable pub trim_to_size : ℤ → EntryMap V → EntryMap V
  trim_to_size max_size m =
      if exceeds (length m) max_size then evict_oldest (excess (length m) max_size) m else m

  -- What follows the loop: the eviction, unless it panicked.
  unfoldable pub finished :
      {E : Type 0}
      → EmbeddingCache V
      → Option (List (Option V)) × EntryMap V
      → Outcome E V × EmbeddingCache V
  finished c (none, m) = (panicked, record c { cache = m })
  finished c (some results, m) = (returned results, record c { cache = trim_to_size c.max_size m })

  -- The second critical section. After a panic the write lock stays held, so that no call sees the
  -- map again.
  unfoldable pub finish :
      {E : Type 0}
      → List Bytes
      → (ℕ → ℕ)
      → List V
      → List ℕ
      → List (Option V)
      → EmbeddingCache V
      → Outcome E V × EmbeddingCache V
  finish hashes clock embs idxs results c =
      finished c (store hashes clock embs idxs results c.cache)

-- What `Embed` does once the embedder has answered for the texts that the scan left.
unfoldable pub answer :
    {E V : Type 0}
    → (Bytes → Bytes)
    → (ℕ → ℕ)
    → List Bytes
    → E ⊎ List V
    → Scan V
    → EmbeddingCache V
    → Outcome E V × EmbeddingCache V
answer hash clock texts (inl err) s c = (failed err, c)
answer hash clock texts (inr embs) s c =
    finish (map hash texts) clock embs s.to_embed_idx s.results c

-- `Embed`, no other call between its two critical sections. `clock` is read under the read lock,
-- `clock'` under the write lock.
unfoldable pub embed :
    {E V : Type 0}
    → (Bytes → Bytes)
    → (clock clock' : ℕ → ℕ) → (List Bytes → E ⊎ List V)
    → List Bytes
    → EmbeddingCache V
    → Outcome E V × EmbeddingCache V
embed hash clock clock' inner texts c =
    let s = scan hash clock 0 texts c in
    if length texts == 0
    then (returned [], c)
    else if length s.to_embed == 0
    then (returned s.results, s.after)
    else answer hash clock' texts (inner s.to_embed) s s.after

-- `Stats` refreshes the size in the counters and returns a copy of them.
unfoldable read_stats : {V : Type 0} → EmbeddingCache V → CacheStats × EmbeddingCache V
read_stats c =
    let stats = record (c.stats) { size = length c.cache } in (stats, record c { stats = stats })

unfoldable clear : {V : Type 0} → EmbeddingCache V → EmbeddingCache V
clear c = record c { cache = []; stats = no_stats }

-- `Warmup` is `Embed` with its results dropped.
unfoldable warmup :
    {E V : Type 0}
    → (Bytes → Bytes)
    → (clock clock' : ℕ → ℕ) → (List Bytes → E ⊎ List V)
    → List Bytes
    → EmbeddingCache V
    → EmbeddingCache V
warmup hash clock clock' inner texts c =
    if length texts == 0 then c else (embed hash clock clock' inner texts c).1
