-- ===== src/Searcher/Limits.antt =====
-- What a search may return.
use mathlib.Core.Path.{subst}
use fileprocessor.Base.{
  ℕ, ◌-◌, ◌≤◌, ◌<◌, ◌≡◌, ◌⊎◌, inl, inr, true, not, List, [], ◌∷◌, arith, leb, ◌==◌, if_ind, Bytes,
  ℤ, pos, negsuc, length, All, fail_as, and_then,
}
use fileprocessor.Text.{trim_space}
use fileprocessor.Searcher.Fusion.{Floats, VectorMatch, Fused}
use fileprocessor.Searcher.{
  Chunk, Document, SearchParamsSearcher, SearchError, Searcher, actual_limit, want, make_document,
  collect, hydrate, search_store, with_keywords, first_embedding, semantic_search, embed_failed,
  empty_query,
}

actual_limit_pos : (limit : ℤ) → 0 < actual_limit limit
unfolding actual_limit
actual_limit_pos (pos n) = ground arith
actual_limit_pos (negsuc n) = ground arith

module _ {F : Type 0} where
  -- The file of a document is one that was asked for.
  abbrev pub IsWanted : List Bytes → Document F → Type 0
  IsWanted file_ids d = want file_ids d.file_id ≡ true

module _ {F E : Type 0} where
  abbrev IsAnswer : SearchParamsSearcher F → SearchError E ⊎ List (Document F) → Type 0
  IsAnswer p (inl e) = Unit
  IsAnswer p (inr docs) = (length docs ≤ actual_limit p.limit) × All (IsWanted p.file_ids) docs

  and_then-IsAnswer :
      {A : Type 0} (p : SearchParamsSearcher F) (x : SearchError E ⊎ A)
      (k : A → SearchError E ⊎ List (Document F))
      → ((a : A) → IsAnswer p (k a))
      → IsAnswer p (and_then x k)
  unfolding and_then
  and_then-IsAnswer p (inl e) k h = tt
  and_then-IsAnswer p (inr a) k h = h a

module _ {F V E : Type 0} (floats : Floats F) where
  length-collect :
      (s : Searcher F V E) (file_ids : List Bytes) (matches : List (VectorMatch F)) (room : ℕ)
      (chs : List Chunk)
      → 0 < room
      → length (collect floats s file_ids matches room chs) ≤ room
  unfolding collect
  length-collect s file_ids matches room [] some_room = omega arith
  length-collect s file_ids matches room (ch ∷ chs) some_room =
      if_ind (λ (ds : List (Document F)). length ds ≤ room) (not (want file_ids ch.file_id))
        (λ _. length-collect s file_ids matches room chs some_room)
        (λ _.
          if_ind (λ (ds : List (Document F)). length ds < room) (leb room 1)
            (λ _. omega (arith, some_room))
            (λ more.
              let two : 1 < room = ground (arith, more) in
              omega (
                arith,
                some_room,
                two,
                length-collect s file_ids matches (room - 1) chs (omega (arith, two)),
              )))

  collect-IsWanted :
      (s : Searcher F V E) (file_ids : List Bytes) (matches : List (VectorMatch F)) (room : ℕ)
      (chs : List Chunk)
      → All (IsWanted file_ids) (collect floats s file_ids matches room chs)
  unfolding collect make_document
  collect-IsWanted s file_ids matches room [] = tt
  collect-IsWanted s file_ids matches room (ch ∷ chs) =
      if_ind (All (IsWanted file_ids)) (not (want file_ids ch.file_id))
        (λ _. collect-IsWanted s file_ids matches room chs)
        (λ kept.
          let wanted : want file_ids ch.file_id ≡ true = ground (arith, kept) in
          (
            wanted,
            if_ind (All (IsWanted file_ids)) (leb room 1) (λ _. tt)
                (λ _. collect-IsWanted s file_ids matches (room - 1) chs),
          ))

  hydrate-IsAnswer :
      (s : Searcher F V E) (p : SearchParamsSearcher F) (ms : List (VectorMatch F))
      → IsAnswer p (hydrate floats s p ms)
  unfolding hydrate
  hydrate-IsAnswer s p [] = (omega arith, tt)
  hydrate-IsAnswer s p (m ∷ ms) = and_then-IsAnswer p _ _ (λ chs. (
    length-collect s p.file_ids (m ∷ ms) (actual_limit p.limit) chs (actual_limit_pos p.limit),
    collect-IsWanted s p.file_ids (m ∷ ms) (actual_limit p.limit) chs,
  ))

  search-IsAnswer :
      (iteration : List (Fused F) → List (Fused F)) (s : Searcher F V E)
      (p : SearchParamsSearcher F)
      → IsAnswer p (semantic_search floats iteration s p)
  unfolding semantic_search
  search-IsAnswer iteration s p =
      if_ind (IsAnswer p) (length (trim_space p.query) == 0) {x = inl empty_query} (λ _. tt)
        (λ _. and_then-IsAnswer p (fail_as embed_failed (s.embed_texts (p.query ∷ []))) _ (λ vs.
          and_then-IsAnswer p (first_embedding vs) _ (λ v.
            and_then-IsAnswer p (search_store floats s p v) _ (λ matches.
              and_then-IsAnswer p (with_keywords floats iteration s p matches) _
                (λ fused. hydrate-IsAnswer s p fused)))))

  -- A search that returns documents returns no more than its limit, 30 where none is given, and, if
  -- it is restricted to files, documents of these files only, whatever the stores answer.
  pub semantic_search-IsWanted :
      (iteration : List (Fused F) → List (Fused F)) (s : Searcher F V E)
      (p : SearchParamsSearcher F) (docs : List (Document F))
      → semantic_search floats iteration s p ≡ inr docs
      → (length docs ≤ actual_limit p.limit) × All (IsWanted p.file_ids) docs
  semantic_search-IsWanted iteration s p docs e =
      subst (IsAnswer p) e (search-IsAnswer iteration s p)
