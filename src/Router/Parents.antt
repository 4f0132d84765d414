-- ===== src/Router/Parents.antt =====
-- eino_retriever.go: the context of a parent chunk in front of a result. Documents are values here;
-- the code changes those of its argument in place.
use fileprocessor.Base.{
  ◌≡◌, refl, sym, ap, ◌⊎◌, inl, inr, Bool, false, ◌||◌, Option, none, some, List, [], ◌∷◌, ◌++◌,
  map, append_assoc, ◌==◌, if◌then◌else◌, if_ind, Bytes, codes, bytes_eq, length,
}
use fileprocessor.Searcher.{Chunk, Document}

unfoldable pub holds_key : Bytes → List Bytes → Bool
holds_key k [] = false
holds_key k (j ∷ ks) = bytes_eq j k || holds_key k ks

-- `parentText[id]`: the text of the last parent with the id.
unfoldable pub text_of : Option Bytes → Bytes → List Chunk → Option Bytes
text_of found id [] = found
text_of found id (p ∷ ps) = text_of (if bytes_eq p.id id then some p.text else found) id ps

module _ {F : Type 0} where
  -- The keys of `parentIDs` after the loop over the results.
  unfoldable pub parent_ids : List Bytes → List (Document F) → List Bytes
  parent_ids keys [] = keys
  parent_ids keys (d ∷ ds) =
      parent_ids
        (if length d.parent_id == 0 || holds_key d.parent_id keys
          then keys
          else keys ++ d.parent_id ∷ [])
        ds

  unfoldable pub with_context : Option Bytes → Document F → Document F
  with_context none d = d
  with_context (some text) d = if length text == 0 then d else record d {
    content = codes "[Context from section]\n" ++ (text ++ (codes "\n\n[Excerpt]\n" ++ d.content));
  }

  unfoldable pub expand_document : List Chunk → Document F → Document F
  expand_document parents d =
      if length d.parent_id == 0 then d else with_context (text_of none d.parent_id parents) d

  unfoldable pub expand_answer :
      {E : Type 0} → E ⊎ List Chunk → List (Document F) → List (Document F)
  expand_answer (inl err) results = results
  expand_answer (inr parents) results = map (expand_document parents) results

  -- `ExpandParentContext`; `iteration` is the order in which the loop over the map of parents finds
  -- its keys, and the store is `none` where it is nil. Without results there is no parent.
  unfoldable pub expand_parent_context :
      {E : Type 0}
      → (List Bytes → List Bytes)
      → Option (List Bytes → E ⊎ List Chunk)
      → List (Document F)
      → List (Document F)
  expand_parent_context iteration none results = results
  expand_parent_context iteration (some chunks_by_ids) results =
      if length (parent_ids [] results) == 0
      then results
      else expand_answer (chunks_by_ids (iteration (parent_ids [] results))) results

  -- The document with its content, or with some text in front of it.
  abbrev pub Extends : Document F → Document F → Type 0
  Extends d d' = (context : Bytes) × (d' ≡ record d { content = context ++ d.content })

  -- Each document, in order, is extended.
  abbrev pub AllExtend : List (Document F) → List (Document F) → Type 0
  AllExtend [] [] = Unit
  AllExtend [] (d ∷ ds) = ⊥
  AllExtend (d ∷ ds) [] = ⊥
  AllExtend (d ∷ ds) (d' ∷ ds') = Extends d d' × AllExtend ds ds'

  AllExtend-same : (ds : List (Document F)) → AllExtend ds ds
  AllExtend-same [] = tt
  AllExtend-same (d ∷ ds) = (([], refl), AllExtend-same ds)

  with_context-Extends : (found : Option Bytes) (d : Document F) → Extends d (with_context found d)
  unfolding with_context
  with_context-Extends none d = ([], refl)
  with_context-Extends (some text) d =
      if_ind (Extends d) (length text == 0) {x = d}
        {y = record d {
          content =
              codes "[Context from section]\n" ++ (text ++ (codes "\n\n[Excerpt]\n" ++ d.content));
        }}
        (λ _. ([], refl))
        (λ _. (
          codes "[Context from section]\n" ++ (text ++ codes "\n\n[Excerpt]\n"),
          ap (λ (t : Bytes). record d { content = codes "[Context from section]\n" ++ t })
              (sym (append_assoc text (codes "\n\n[Excerpt]\n") d.content)),
        ))

  expand_document-Extends :
      (parents : List Chunk) (d : Document F) → Extends d (expand_document parents d)
  unfolding expand_document
  expand_document-Extends parents d =
      if_ind (Extends d) (length d.parent_id == 0) {x = d}
        {y = with_context (text_of none d.parent_id parents) d} (λ _. ([], refl))
        (λ _. with_context-Extends (text_of none d.parent_id parents) d)

  map-AllExtend :
      (parents : List Chunk) (ds : List (Document F))
      → AllExtend ds (map (expand_document parents) ds)
  map-AllExtend parents [] = tt
  map-AllExtend parents (d ∷ ds) = (expand_document-Extends parents d, map-AllExtend parents ds)

  answer-AllExtend :
      {E : Type 0} (answer : E ⊎ List Chunk) (ds : List (Document F))
      → AllExtend ds (expand_answer answer ds)
  unfolding expand_answer
  answer-AllExtend (inl err) ds = AllExtend-same ds
  answer-AllExtend (inr parents) ds = map-AllExtend parents ds

  -- The expansion keeps the number and the order of the results and all of each result but its
  -- content, which may get text in front, whatever the store answers, an error included.
  pub expand_parent_context-AllExtend :
      {E : Type 0} (iteration : List Bytes → List Bytes)
      (store : Option (List Bytes → E ⊎ List Chunk)) (results : List (Document F))
      → AllExtend results (expand_parent_context iteration store results)
  unfolding expand_parent_context
  expand_parent_context-AllExtend iteration none results = AllExtend-same results
  expand_parent_context-AllExtend iteration (some chunks_by_ids) results =
      if_ind (AllExtend results) (length (parent_ids [] results) == 0) (λ _. AllExtend-same results)
        (λ _. answer-AllExtend (chunks_by_ids (iteration (parent_ids [] results))) results)
