-- ===== src/Tests/Cache.antt =====
-- The embedding cache over an embedder of one number.
use fileprocessor.Base.{
  ℕ, ◌+◌, ◌-◌, ◌≤◌, ◌≡◌, refl, sym, ap, ◌⊎◌, inr, List, [], ◌∷◌, ◌++◌, map, arith, Bytes, codes,
  pos, length, length-map,
}
use fileprocessor.EmbeddingCache.{
  Entry, EntryMap, EmbeddingCache, bump, embed, answer, scan, evict_oldest, no_stats,
}
use fileprocessor.EmbeddingCache.Bounds.{EndsBounded, embed-EndsBounded}
use fileprocessor.EmbeddingCache.Eviction.{NoneNewer, forget_hits, evict_oldest_oldest}
use fileprocessor.EmbeddingCache.Transparent.{Coherent}
use fileprocessor.EmbeddingCache.Interleaving.{Answers, embed-Answers, interleaved-Answers}
use mathlib.Core.List.{Perm}

abbrev entry_at : ℕ → Entry ℕ
entry_at time = record { embedding = 7; created_at = time; hit_count = 0 }

abbrev three_entries : EntryMap ℕ
three_entries = (codes "a", entry_at 5) ∷ (codes "b", entry_at 2) ∷ (codes "c", entry_at 9) ∷ []

evict_oldest_oldest_example :
    (gone : EntryMap ℕ) × Perm (gone ++ evict_oldest 2 three_entries) three_entries
    × NoneNewer gone (evict_oldest 2 three_entries)
    × (length (evict_oldest 2 three_entries) ≡ length three_entries - 2)
    × ((k : Bytes)
        → forget_hits (evict_oldest 2 (bump k three_entries))
          ≡ forget_hits (evict_oldest 2 three_entries))
evict_oldest_oldest_example = evict_oldest_oldest 2 three_entries (omega arith)

-- The hash is the text itself, and an embedding the length of the text.
abbrev identity : Bytes → Bytes
identity t = t

abbrev embedder : List Bytes → Bytes ⊎ List ℕ
embedder ts = inr (map length ts)

embedder-fits : (ts : List Bytes) (embs : List ℕ) → embedder ts ≡ inr embs → length embs ≤ length ts
embedder-fits ts embs answered =
    let same : embs ≡ map length ts = cc in rw (same, length-map length ts) (omega arith)

abbrev clock : ℕ → ℕ
clock i = 3 + i

abbrev warm : EmbeddingCache ℕ
warm = record {
  cache = (codes "ab", record { embedding = 2; created_at = 0; hit_count = 0 }) ∷ [];
  max_size = pos 2;
  ttl = pos 100;
  avg_embed_ms = 1;
  stats = no_stats;
}

abbrev queries : List Bytes
queries = codes "abc" ∷ codes "ab" ∷ codes "abc" ∷ []

-- Every text may be seen.
abbrev Any : Bytes → Type 0
Any t = Unit

warm-Coherent : Coherent identity Any (λ s t _ _ e. e) length warm.cache
warm-Coherent = ((λ t _ same. sym (ap length same)), tt)

embed-Answers_example :
    Answers {E = Bytes} identity Any
      (λ s t _ _ e. e)
      length
      queries
      (embed identity clock clock embedder queries warm)
embed-Answers_example =
    embed-Answers identity Any (λ s t _ _ e. e) length clock clock embedder queries warm
      (λ ts. refl) (tt, (tt, (tt, tt))) warm-Coherent

-- Another call has emptied the cache between the two critical sections.
abbrev emptied : EmbeddingCache ℕ
emptied = record warm { cache = [] }

interleaved-Answers_example :
    Answers {E = Bytes} identity Any
      (λ s t _ _ e. e)
      length
      queries
      (answer identity clock queries
        (inr (map length (scan identity clock 0 queries warm).to_embed))
        (scan identity clock 0 queries warm)
        emptied)
interleaved-Answers_example =
    interleaved-Answers identity Any (λ s t _ _ e. e) length clock clock queries warm emptied
      (tt, (tt, (tt, tt))) warm-Coherent tt

embed-EndsBounded_example :
    EndsBounded (embed {E = Bytes} identity clock clock embedder queries warm)
embed-EndsBounded_example =
    embed-EndsBounded {E = Bytes} identity clock clock embedder queries warm embedder-fits
      (omega arith)
