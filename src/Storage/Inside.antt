-- ===== src/Storage/Inside.antt =====
-- Where `SafeDelete` deletes.
use fileprocessor.Base.{
  ℕ, ◌≡◌, refl, sym, ◌⊎◌, inl, inr, Bool, true, false, ◌&&◌, ◌||◌, not, Option, none, some, [], ◌∷◌,
  ◌++◌, arith, if_ind, Bool-cases, Bytes, codes, length, drop, All,
}
use fileprocessor.Text.{has_prefix, split}
use fileprocessor.Text.Laws.{drop-has_prefix}
use fileprocessor.Paths.{clean, is_abs, rooted_path}
use fileprocessor.Paths.Clean.{NotDots, clean-no_dots, clean-is_abs}
use fileprocessor.Storage.{FileSystem, deletion_path, remove_file, delete_path, safe_delete}

-- A path below a directory, none of whose elements is `..`.
abbrev pub IsBelow : Bytes → Bytes → Type 0
IsBelow base_dir path =
    ((rest : Bytes) × (path ≡ (clean base_dir ++ codes "/") ++ rest))
    × All NotDots (split path (codes "/"))

abbrev OnPath : Bytes → Option Bytes → Type 0
OnPath base_dir none = Unit
OnPath base_dir (some path) = IsBelow base_dir path

-- What an absolute directory is cleaned to begins with a separator.
clean-slash : (p : Bytes) → is_abs p ≡ true → is_abs (clean p) ≡ true
unfolding clean rooted_path is_abs
clean-slash p rooted = rw rooted refl

has_prefix-abs : (s p t : Bytes) → is_abs p ≡ true → has_prefix s (p ++ t) ≡ true → is_abs s ≡ true
unfolding has_prefix is_abs
has_prefix-abs s [] t rooted h = cc
has_prefix-abs [] (b ∷ p) t rooted h = cc
has_prefix-abs (c ∷ s) (b ∷ p) t rooted h = ground arith

not-false : (b : Bool) → not b ≡ false → b ≡ true
not-false true h = refl
not-false false h = sym h

-- What lies below an absolute directory is the cleaned form of an absolute path.
below-abs :
    (file_path base_dir : Bytes)
    → is_abs base_dir ≡ true
    → has_prefix (clean file_path) (clean base_dir ++ codes "/") ≡ true
    → is_abs file_path ≡ true
below-abs file_path base_dir rooted starts = elim (Bool-cases (is_abs file_path)) [
  | inl absolute ↦ absolute
  | inr relative ↦
      let abs =
        has_prefix-abs (clean file_path) (clean base_dir) (codes "/") (clean-slash base_dir rooted)
          starts in
      cc (abs, clean-is_abs file_path relative)
]

deletion_path-IsBelow :
    (file_path base_dir : Bytes)
    → is_abs base_dir ≡ true
    → OnPath base_dir (deletion_path file_path base_dir)
unfolding deletion_path
deletion_path-IsBelow file_path base_dir rooted =
    let cleaned = clean file_path in
    let expected_prefix = clean base_dir ++ codes "/" in
    let starts = has_prefix cleaned expected_prefix in
    if_ind (OnPath base_dir) (has_prefix cleaned (codes "http") || is_abs cleaned && not starts)
      (λ elsewhere. tt)
      (λ here.
        if_ind (OnPath base_dir) (not starts) (λ outside. tt)
          (λ inside.
            let below = not-false starts inside in
            (
              (
                drop (length expected_prefix) cleaned,
                drop-has_prefix cleaned expected_prefix below,
              ),
              clean-no_dots file_path (below-abs file_path base_dir rooted below),
            )))

module _ {W E : Type 0} (fs : FileSystem W E) (base_dir : Bytes) (w : W) where
  -- Nothing is done, or a file below the directory is removed.
  abbrev pub RemovesBelow : Option E × W → Type 0
  RemovesBelow result =
      (result ≡ (none, w))
      ⊎ ((path : Bytes) × (size : ℕ) × IsBelow base_dir path
          × (fs.stat path w ≡ inr (false, size))
          × (result ≡ fs.remove path w))

  remove_file-RemovesBelow :
      (path : Bytes) (info : E ⊎ (Bool × ℕ))
      → IsBelow base_dir path
      → fs.stat path w ≡ info
      → RemovesBelow (remove_file fs path info w)
  unfolding remove_file
  remove_file-RemovesBelow path (inl err) below e = inl refl
  remove_file-RemovesBelow path (inr (true, size)) below e = inl refl
  remove_file-RemovesBelow path (inr (false, size)) below e = inr (path, size, below, e, refl)

  delete_path-RemovesBelow :
      (path : Option Bytes) → OnPath base_dir path → RemovesBelow (delete_path fs path w)
  unfolding delete_path
  delete_path-RemovesBelow none _ = inl refl
  delete_path-RemovesBelow (some path) below =
      remove_file-RemovesBelow path (fs.stat path w) below refl

  -- With an absolute base directory, `SafeDelete` does nothing, or it removes a single file, which
  -- exists, is no directory, and lies below the base directory: its path is the cleaned base
  -- directory followed by further elements, and none of its elements is `..`.
  pub safe_delete-RemovesBelow :
      (file_path : Bytes)
      → is_abs base_dir ≡ true
      → RemovesBelow (safe_delete fs file_path base_dir w)
  unfolding safe_delete
  safe_delete-RemovesBelow file_path rooted =
      delete_path-RemovesBelow (deletion_path file_path base_dir)
        (deletion_path-IsBelow file_path base_dir rooted)
