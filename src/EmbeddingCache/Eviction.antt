-- ===== src/EmbeddingCache/Eviction.antt =====
-- What eviction keeps.
use mathlib.Core.List.{Perm}
use mathlib.Core.List.Perm
use Prim.Native.Nat.{min}
use fileprocessor.Base.{
  ℕ, zero, suc, ◌+◌, ◌-◌, ◌≤◌, ◌<◌, ◌≡◌, refl, sym, ap, ◌∙◌, inl, inr, ◌||◌, [], ◌∷◌, ◌++◌, arith,
  leb, ◌==◌, if◌then◌else◌, if_ind, Bool-cases, Bytes, bytes_eq, ℤ, to_ℕ, pos, negsuc, length, take,
  drop, take-append-drop, length-drop, All, All-map,
}
use fileprocessor.EmbeddingCache.{
  Entry, EntryMap, bump, insert_by_age, sort_by_age, evict_oldest, excess, trim_to_size,
}

module _ {V : Type 0} where
  length-insert_by_age :
      (x : Bytes × Entry V) (m : EntryMap V) → length (insert_by_age x m) ≡ suc (length m)
  unfolding insert_by_age
  length-insert_by_age x [] = refl
  length-insert_by_age x (y ∷ ys) = ground (arith, length-insert_by_age x ys)

  length-sort_by_age : (m : EntryMap V) → length (sort_by_age m) ≡ length m
  unfolding sort_by_age
  length-sort_by_age [] = refl
  length-sort_by_age (x ∷ xs) =
      length-insert_by_age x (sort_by_age xs) ∙ ap suc (length-sort_by_age xs)

  -- Evicting `count` entries leaves as many fewer.
  pub length-evict_oldest :
      (count : ℕ) (m : EntryMap V) → length (evict_oldest count m) ≡ length m - count
  unfolding evict_oldest
  length-evict_oldest count m =
      ground (arith, length-drop count (sort_by_age m), length-sort_by_age m)

  -- After the trimming the cache has at most the maximal number of entries, none if that number is
  -- negative, and exactly the maximal number if there were more.
  pub length-trim_to_size :
      (max_size : ℤ) (m : EntryMap V)
      → length (trim_to_size max_size m) ≡ min (length m) (to_ℕ max_size)
  unfolding trim_to_size excess
  length-trim_to_size (pos n) m = ground (arith, length-evict_oldest (length m - n) m)
  length-trim_to_size (negsuc n) m = ground (arith, length-evict_oldest (length m + (n + 1)) m)

  -- The entries in order of age, the oldest first.
  abbrev IsByAge : EntryMap V → Type 0
  IsByAge [] = Unit
  IsByAge (x ∷ xs) = All (λ (y : Bytes × Entry V). x.1.created_at ≤ y.1.created_at) xs × IsByAge xs

  insert_by_age-All :
      (P : Bytes × Entry V → Type 0) (x : Bytes × Entry V) (m : EntryMap V)
      → P x
      → All P m
      → All P (insert_by_age x m)
  unfolding insert_by_age
  insert_by_age-All P x [] px h = (px, tt)
  insert_by_age-All P x (y ∷ ys) px (py, h) =
      if_ind (All P) (leb x.1.created_at y.1.created_at) (λ _. (px, (py, h)))
        (λ _. (py, insert_by_age-All P x ys px h))

  pub sort_by_age-All :
      (P : Bytes × Entry V → Type 0) (m : EntryMap V) → All P m → All P (sort_by_age m)
  unfolding sort_by_age
  sort_by_age-All P [] h = tt
  sort_by_age-All P (x ∷ xs) (px, h) =
      insert_by_age-All P x (sort_by_age xs) px (sort_by_age-All P xs h)

  insert_by_age-IsByAge :
      (x : Bytes × Entry V) (m : EntryMap V) → IsByAge m → IsByAge (insert_by_age x m)
  unfolding insert_by_age
  insert_by_age-IsByAge x [] h = (tt, tt)
  insert_by_age-IsByAge x (y ∷ ys) (older, h) =
      if_ind IsByAge (leb x.1.created_at y.1.created_at)
        (λ first.
          let le : x.1.created_at ≤ y.1.created_at = ground arith in
          ((le, All-map _ _ (λ z k. omega (arith, k, le)) ys older), (older, h)))
        (λ later. (
          insert_by_age-All (λ (z : Bytes × Entry V). y.1.created_at ≤ z.1.created_at) x ys
              (ground arith) older,
          insert_by_age-IsByAge x ys h,
        ))

  sort_by_age-IsByAge : (m : EntryMap V) → IsByAge (sort_by_age m)
  unfolding sort_by_age
  sort_by_age-IsByAge [] = tt
  sort_by_age-IsByAge (x ∷ xs) = insert_by_age-IsByAge x (sort_by_age xs) (sort_by_age-IsByAge xs)

  pub drop-All :
      (P : Bytes × Entry V → Type 0) (n : ℕ) (m : EntryMap V) → All P m → All P (drop n m)
  drop-All P zero m h = h
  drop-All P (suc n) [] h = tt
  drop-All P (suc n) (x ∷ xs) h = drop-All P n xs h.1

  -- Each of the entries is at least as old as each of the others.
  abbrev pub NoneNewer : EntryMap V → EntryMap V → Type 0
  NoneNewer xs ys =
      All
        (λ (x : Bytes × Entry V). All (λ (y : Bytes × Entry V). x.1.created_at ≤ y.1.created_at) ys)
        xs

  IsByAge-split : (n : ℕ) (m : EntryMap V) → IsByAge m → NoneNewer (take n m) (drop n m)
  IsByAge-split zero m h = tt
  IsByAge-split (suc n) [] h = tt
  IsByAge-split (suc n) (x ∷ xs) (older, h) = (drop-All _ n xs older, IsByAge-split n xs h)

  insert_by_age-perm : (x : Bytes × Entry V) (m : EntryMap V) → Perm (insert_by_age x m) (x ∷ m)
  unfolding insert_by_age
  insert_by_age-perm x [] = Perm.refl (x ∷ [])
  insert_by_age-perm x (y ∷ ys) =
      if_ind (λ (zs : EntryMap V). Perm zs (x ∷ y ∷ ys)) (leb x.1.created_at y.1.created_at)
        (λ _. Perm.refl (x ∷ y ∷ ys))
        (λ _. Perm.trans (Perm.cons y (insert_by_age-perm x ys)) (Perm.swap x y ys))

  sort_by_age-perm : (m : EntryMap V) → Perm (sort_by_age m) m
  unfolding sort_by_age
  sort_by_age-perm [] = Perm.refl []
  sort_by_age-perm (x ∷ xs) =
      Perm.trans (insert_by_age-perm x (sort_by_age xs)) (Perm.cons x (sort_by_age-perm xs))

  -- The entries without their counters.
  unfoldable pub forget_hits : EntryMap V → EntryMap V
  forget_hits [] = []
  forget_hits ((k, e) ∷ m) = (k, record e { hit_count = 0 }) ∷ forget_hits m

  forget_hits-bump : (k : Bytes) (m : EntryMap V) → forget_hits (bump k m) ≡ forget_hits m
  unfolding forget_hits bump
  forget_hits-bump k [] = refl
  forget_hits-bump k ((j, e) ∷ m) =
      if_ind (λ (n : EntryMap V). forget_hits n ≡ (j, record e { hit_count = 0 }) ∷ forget_hits m)
        (bytes_eq j k) (λ _. refl)
        (λ _. ap (◌∷◌ (j, record e { hit_count = 0 })) (forget_hits-bump k m))

  forget_hits-insert_by_age :
      (k : Bytes) (e : Entry V) (m : EntryMap V)
      → forget_hits (insert_by_age (k, e) m)
        ≡ insert_by_age (k, record e { hit_count = 0 }) (forget_hits m)
  unfolding forget_hits insert_by_age
  forget_hits-insert_by_age k e [] = refl
  forget_hits-insert_by_age k e ((j, d) ∷ m) = elim (Bool-cases (leb e.created_at d.created_at)) [
    | inl older ↦ rw older refl
    | inr newer ↦
        rw newer (ap (◌∷◌ (j, record d { hit_count = 0 })) (forget_hits-insert_by_age k e m))
  ]

  forget_hits-sort_by_age :
      (m : EntryMap V) → forget_hits (sort_by_age m) ≡ sort_by_age (forget_hits m)
  unfolding forget_hits sort_by_age
  forget_hits-sort_by_age [] = refl
  forget_hits-sort_by_age ((k, e) ∷ m) =
      forget_hits-insert_by_age k e (sort_by_age m)
      ∙ ap (insert_by_age (k, record e { hit_count = 0 })) (forget_hits-sort_by_age m)

  forget_hits-drop : (n : ℕ) (m : EntryMap V) → forget_hits (drop n m) ≡ drop n (forget_hits m)
  unfolding forget_hits
  forget_hits-drop zero m = refl
  forget_hits-drop (suc n) [] = refl
  forget_hits-drop (suc n) (x ∷ m) = forget_hits-drop n m

  length-forget_hits : (m : EntryMap V) → length (forget_hits m) ≡ length m
  unfolding forget_hits
  length-forget_hits [] = refl
  length-forget_hits (x ∷ m) = ap suc (length-forget_hits m)

  forget_hits-evict_oldest :
      (count : ℕ) (m : EntryMap V)
      → forget_hits (evict_oldest count m) ≡ evict_oldest count (forget_hits m)
  unfolding evict_oldest
  forget_hits-evict_oldest count m = rw (length-forget_hits m) (
      if_ind
        (λ (n : EntryMap V). forget_hits n ≡ (
          if count == 0 || length m == 0
          then forget_hits m
          else drop count (sort_by_age (forget_hits m))))
        (count == 0 || length m == 0) (λ none_there. rw none_there refl)
        (λ more.
          rw more
            (forget_hits-drop count (sort_by_age m) ∙ ap (drop count) (forget_hits-sort_by_age m))))

  evict_oldest-bump :
      (count : ℕ) (m : EntryMap V) (k : Bytes)
      → forget_hits (evict_oldest count (bump k m)) ≡ forget_hits (evict_oldest count m)
  evict_oldest-bump count m k =
      forget_hits-evict_oldest count (bump k m)
      ∙ ap (evict_oldest count) (forget_hits-bump k m)
      ∙ sym (forget_hits-evict_oldest count m)

  -- Eviction of a positive number of entries parts the entries in two: those evicted and those
  -- that stay. None of the evicted is newer than one that stays, no entry is lost or made up, and
  -- as many are evicted as are asked for, all if there are no more. A hit does not matter: with
  -- one more hit of any key the same entries stay, but for their counters.
  pub evict_oldest_oldest :
      (count : ℕ) (m : EntryMap V)
      → 0 < count
      → (gone : EntryMap V) × Perm (gone ++ evict_oldest count m) m
        × NoneNewer gone (evict_oldest count m)
        × (length (evict_oldest count m) ≡ length m - count)
        × ((k : Bytes)
            → forget_hits (evict_oldest count (bump k m)) ≡ forget_hits (evict_oldest count m))
  evict_oldest_oldest count m some_evicted = elim (Bool-cases (count == 0 || length m == 0)) [
    | inl none_there ↦
        let same : evict_oldest count m ≡ m = unfold evict_oldest in rw none_there in
        ([], rw same (Perm.refl m), tt, length-evict_oldest count m, evict_oldest-bump count m)
    | inr more ↦
        let rest : evict_oldest count m ≡ drop count (sort_by_age m) =
          unfold evict_oldest in rw more in
        (
          take count (sort_by_age m),
          rw (rest, take-append-drop count (sort_by_age m)) (sort_by_age-perm m),
          rw rest (IsByAge-split count (sort_by_age m) (sort_by_age-IsByAge m)),
          length-evict_oldest count m,
          evict_oldest-bump count m,
        )
  ]
