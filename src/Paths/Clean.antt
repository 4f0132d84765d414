-- ===== src/Paths/Clean.antt =====
-- What `filepath.Clean` gives.
use fileprocessor.Base.{
  ℕ, ◌≡◌, refl, ◌∙◌, inl, inr, Bool, true, false, ◌||◌, List, [], ◌∷◌, reverse, arith, ◌==◌, if_ind,
  Bool-cases, Bytes, codes, bytes_eq, length, All, All-map, All-reverse,
}
use fileprocessor.Text.{split, cons_head, split_from, join}
use fileprocessor.Text.Laws.{split_here, split_next, split-append}
use fileprocessor.Paths.{
  is_abs, dots, go_up, add_element, clean_elements, rooted_path, relative_path, clean,
}

abbrev slash : Bytes
slash = codes "/"

abbrev NoSlash : Bytes → Type 0
NoSlash = All (λ c. c == b'/' ≡ false)

-- An element of a path that was cleaned; one of a rooted path is not `..`.
abbrev IsElement : Bool → Bytes → Type 0
IsElement rooted e =
    NoSlash e × ((length e == 0 ≡ false) × (rooted ≡ true → bytes_eq e dots ≡ false))

cons_head-NoSlash :
    (c : ℕ) (ps : List Bytes) → c == b'/' ≡ false → All NoSlash ps → All NoSlash (cons_head c ps)
unfolding cons_head
cons_head-NoSlash c [] other h = ((other, tt), tt)
cons_head-NoSlash c (p ∷ ps) other (hp, h) = ((other, hp), h)

split-NoSlash : (s : Bytes) → All NoSlash (split s slash)
split-NoSlash [] = unfold split split_from in (tt, tt)
split-NoSlash (c ∷ s) = elim (Bool-cases (c == b'/')) [
  | inl here ↦ rw (split_here b'/' c s here) (tt, split-NoSlash s)
  | inr next ↦ rw (split_next b'/' c s next) (cons_head-NoSlash c _ next (split-NoSlash s))
]

split_one : (e : Bytes) → NoSlash e → split e slash ≡ e ∷ []
split_one [] _ = unfold split split_from in refl
split_one (c ∷ e) (other, h) =
    rw (split_next b'/' c e other, split_one e h) (unfold cons_head in refl)

-- Elements that are joined and split again.
split-join :
    (e : Bytes) (es : List Bytes)
    → All NoSlash (e ∷ es)
    → split (join (e ∷ es) slash) slash ≡ e ∷ es
unfolding join
split-join e [] (he, h) = split_one e he
split-join e (f ∷ es) (he, h) =
    split-append b'/' e (join (f ∷ es) slash) ∙ rw (split_one e he, split-join f es h) refl

module _ (rooted : Bool) where
  dots-IsElement : (rooted ≡ true → bytes_eq dots dots ≡ false) → IsElement rooted dots
  dots-IsElement relative = ((refl, (refl, tt)), (refl, relative))

  go_up-elements :
      (es : List Bytes) → All (IsElement rooted) es → All (IsElement rooted) (go_up rooted es)
  unfolding go_up
  go_up-elements [] _ =
      if_ind (All (IsElement rooted)) rooted (λ at_root. tt)
        (λ relative. (dots-IsElement (λ at_root. cc), tt))
  go_up-elements (e ∷ es) (he, h) =
      if_ind (All (IsElement rooted)) (bytes_eq e dots)
        (λ up. (dots-IsElement (λ at_root. absurd (ground (arith, he.1.1 at_root))), (he, h)))
        (λ down. h)

  add_element-elements :
      (e : Bytes) (es : List Bytes)
      → NoSlash e
      → All (IsElement rooted) es
      → All (IsElement rooted) (add_element rooted e es)
  unfolding add_element
  add_element-elements e es plain h =
      if_ind (All (IsElement rooted)) (length e == 0 || bytes_eq e (codes ".")) (λ skipped. h)
        (λ kept.
          if_ind (All (IsElement rooted)) (bytes_eq e dots) (λ up. go_up-elements es h)
            (λ down. ((plain, (ground arith, (λ _. down))), h)))

  clean_elements-elements :
      (rest es : List Bytes)
      → All NoSlash rest
      → All (IsElement rooted) es
      → All (IsElement rooted) (clean_elements rooted rest es)
  unfolding clean_elements
  clean_elements-elements [] es _ h = h
  clean_elements-elements (e ∷ rest) es (plain, hr) h =
      clean_elements-elements rest (add_element rooted e es) hr (add_element-elements e es plain h)

  -- The elements of a path, in order.
  cleaned-elements :
      (path : Bytes)
      → All (IsElement rooted) (reverse (clean_elements rooted (split path slash) []))
  cleaned-elements path =
      All-reverse (IsElement rooted) _
        (clean_elements-elements (split path slash) [] (split-NoSlash path) tt)

abbrev pub NotDots : Bytes → Type 0
NotDots e = bytes_eq e dots ≡ false

rooted_path-no_dots :
    (es : List Bytes) → All (IsElement true) es → All NotDots (split (rooted_path es) slash)
unfolding rooted_path
rooted_path-no_dots [] _ = unfold split split_from join in (refl, (refl, tt))
rooted_path-no_dots (e ∷ es) h =
    let plain = All-map (IsElement true) NoSlash (λ f hf. hf.0) (e ∷ es) h in
    rw (split_here b'/' b'/' (join (e ∷ es) slash) refl, split-join e es plain)
      (refl, All-map (IsElement true) NotDots (λ f hf. hf.1.1 refl) (e ∷ es) h)

relative_path-not_abs :
    (es : List Bytes) → All (IsElement false) es → is_abs (relative_path es) ≡ false
unfolding relative_path is_abs join
relative_path-not_abs [] _ = refl
relative_path-not_abs ([] ∷ es) ((_, (some_byte, _)), _) = absurd (ground (arith, some_byte))
relative_path-not_abs ((c ∷ e) ∷ []) (((other, _), _), _) = other
relative_path-not_abs ((c ∷ e) ∷ f ∷ es) (((other, _), _), _) = other

-- No element of the cleaned form of an absolute path is `..`.
pub clean-no_dots : (path : Bytes) → is_abs path ≡ true → All NotDots (split (clean path) slash)
unfolding clean
clean-no_dots path rooted =
    let elements = cleaned-elements true path in rw rooted (rooted_path-no_dots _ elements)

-- The cleaned form of a path is absolute only if the path is.
pub clean-is_abs : (path : Bytes) → is_abs path ≡ false → is_abs (clean path) ≡ false
unfolding clean
clean-is_abs path relative =
    let elements = cleaned-elements false path in rw relative (relative_path-not_abs _ elements)
