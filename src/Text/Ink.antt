-- ===== src/Text/Ink.antt =====
-- The ink of a text: its visible ASCII characters but for the punctuation that the chunkers split
-- at. `Split` at such punctuation, `Join` and `TrimSpace` neither lose nor move any of it.
use mathlib.Core.List.{reverse-append, reverse-reverse}
use fileprocessor.Base.{
  ℕ, zero, suc, ◌≡◌, refl, sym, ap, ◌∙◌, inl, inr, Bool, true, false, ◌&&◌, ◌||◌, not, List, [],
  ◌∷◌, ◌++◌, reverse, append-nil, arith, ltb, ◌==◌, if◌then◌else◌, Bool-cases, Bytes, length, take,
  drop, flatten,
}
use fileprocessor.Text.{
  has_prefix, cons_head, split_from, split, join, skip, trim_space, space_width, space_width_back,
  is_space_1, is_space_2, is_space_3,
}
use fileprocessor.Text.Laws.{
  ℕ-cases, skip_over, skip_none, skip_some, split_from_here, split_from_next, split_from_skip,
  drop-has_prefix, sub-one_suc,
}

unfoldable pub is_ink : ℕ → Bool
is_ink c =
    ltb 32 c && ltb c 127 && not (c == b'.' || c == b'?' || c == b'!' || c == b';' || c == b',')

keep : ℕ → Bytes → Bytes
keep c s = if is_ink c then c ∷ s else s

unfoldable pub ink : Bytes → Bytes
unfolding is_ink keep
ink [] = []
ink (c ∷ s) = keep c (ink s)

pub ink_nil : ink [] ≡ []
unfolding ink
ink_nil = refl

keep-append : (c : ℕ) (s t : Bytes) → keep c s ++ t ≡ keep c (s ++ t)
unfolding keep
keep-append c s t = ground arith

pub ink-append : (s t : Bytes) → ink (s ++ t) ≡ ink s ++ ink t
ink-append [] t = unfold ink in refl
ink-append (c ∷ s) t = go (ink-append s t)
  where
    go : ink (s ++ t) ≡ ink s ++ ink t → ink (c ∷ (s ++ t)) ≡ ink (c ∷ s) ++ ink t
    go ih = unfold ink in (ap (keep c) ih ∙ sym (keep-append c (ink s) (ink t)))

ink_one : (c : ℕ) (s : Bytes) → ink (c ∷ s) ≡ keep c (ink s)
unfolding ink
ink_one c s = refl

ink_single : (c : ℕ) → ink (c ∷ []) ≡ reverse (ink (c ∷ []))
unfolding ink
ink_single c = ground arith

pub ink-reverse : (s : Bytes) → ink (reverse s) ≡ reverse (ink s)
ink-reverse [] = unfold ink in refl
ink-reverse (c ∷ s) =
    ap ink (reverse-append (c ∷ []) s)
    ∙ ink-append (reverse s) (c ∷ [])
    ∙ ap (λ t. t ++ ink (c ∷ [])) (ink-reverse s)
    ∙ ap (λ t. reverse (ink s) ++ t) (ink_single c)
    ∙ sym (reverse-append (ink (c ∷ [])) (ink s))
    ∙ ap reverse (sym (ink-append (c ∷ []) s))

-- What `width` passes over holds no ink.
abbrev IsBlank : (Bytes → ℕ) → Type 0
IsBlank width = (c : ℕ) (s : Bytes) (k : ℕ) → width (c ∷ s) ≡ suc k → ink (c ∷ take k s) ≡ []

ink_cons-eq-nil : (c : ℕ) (s : Bytes) → ink (c ∷ s) ≡ [] → (ink (c ∷ []) ≡ []) × (ink s ≡ [])
unfolding ink
ink_cons-eq-nil c s h = ground arith

ink_drop_blank : (c : ℕ) (s : Bytes) → ink (c ∷ []) ≡ [] → ink (c ∷ s) ≡ ink s
ink_drop_blank c s h = ink-append (c ∷ []) s ∙ ap (λ t. t ++ ink s) h

ink-skip :
    (width : Bytes → ℕ)
    → IsBlank width
    → (k : ℕ) (s : Bytes) → ink (take k s) ≡ []
    → ink (skip width k s) ≡ ink s
ink-skip width blank k [] h = unfold skip in refl
ink-skip width blank (suc k) (c ∷ s) h =
    let (blank_c, blank_rest) = ink_cons-eq-nil c (take k s) h in
    rw (skip_over width k c s)
      (ink-skip width blank k s blank_rest ∙ sym (ink_drop_blank c s blank_c))
ink-skip width blank zero (c ∷ s) h = elim (ℕ-cases (width (c ∷ s))) [
  | inl stop ↦ ap ink (skip_none width c s stop)
  | inr (k, more) ↦
      let (blank_c, blank_rest) = ink_cons-eq-nil c (take k s) (blank c s k more) in
      rw (skip_some width c s more)
        (ink-skip width blank k s blank_rest ∙ sym (ink_drop_blank c s blank_c))
]

blank_1 : (a : ℕ) → is_space_1 a ≡ true → is_ink a ≡ false
unfolding is_space_1 is_ink
blank_1 a h = ground arith

blank_2 : (a b : ℕ) → is_space_2 a b ≡ true → (is_ink a ≡ false) × (is_ink b ≡ false)
unfolding is_space_2 is_ink
blank_2 a b h = ground arith

blank_3 :
    (a b c : ℕ)
    → is_space_3 a b c ≡ true
    → (is_ink a ≡ false) × (is_ink b ≡ false) × (is_ink c ≡ false)
unfolding is_space_3 is_ink
blank_3 a b c h = ground arith

ink_blank : (c : ℕ) (s : Bytes) → is_ink c ≡ false → ink s ≡ [] → ink (c ∷ s) ≡ []
unfolding keep
ink_blank c s h e = ink_one c s ∙ rw (h, e)

space_width-IsBlank : IsBlank space_width
unfolding space_width
space_width-IsBlank c [] k h = ground (arith, blank_1 c, ink_blank c (take k []), ink_nil)
space_width-IsBlank c (b ∷ []) zero h = ground (arith, blank_1 c, ink_blank c [], ink_nil)
space_width-IsBlank c (b ∷ []) (suc k) h =
    ground (arith, blank_2 c b, ink_blank c (b ∷ []), ink_blank b [], ink_nil)
space_width-IsBlank c (b ∷ a ∷ s) zero h = ground (arith, blank_1 c, ink_blank c [], ink_nil)
space_width-IsBlank c (b ∷ a ∷ s) (suc zero) h =
    ground (arith, blank_2 c b, ink_blank c (b ∷ []), ink_blank b [], ink_nil)
space_width-IsBlank c (b ∷ a ∷ s) (suc (suc zero)) h =
    ground (
      arith,
      blank_3 c b a,
      ink_blank c (b ∷ a ∷ []),
      ink_blank b (a ∷ []),
      ink_blank a [],
      ink_nil,
    )
space_width-IsBlank c (b ∷ a ∷ s) (suc (suc (suc k))) h = ground arith

space_width_back-IsBlank : IsBlank space_width_back
unfolding space_width_back
space_width_back-IsBlank c [] k h = ground (arith, blank_1 c, ink_blank c (take k []), ink_nil)
space_width_back-IsBlank c (b ∷ []) zero h = ground (arith, blank_1 c, ink_blank c [], ink_nil)
space_width_back-IsBlank c (b ∷ []) (suc k) h =
    ground (arith, blank_2 b c, ink_blank c (b ∷ []), ink_blank b [], ink_nil)
space_width_back-IsBlank c (b ∷ a ∷ s) zero h = ground (arith, blank_1 c, ink_blank c [], ink_nil)
space_width_back-IsBlank c (b ∷ a ∷ s) (suc zero) h =
    ground (arith, blank_2 b c, ink_blank c (b ∷ []), ink_blank b [], ink_nil)
space_width_back-IsBlank c (b ∷ a ∷ s) (suc (suc zero)) h =
    ground (
      arith,
      blank_3 a b c,
      ink_blank c (b ∷ a ∷ []),
      ink_blank b (a ∷ []),
      ink_blank a [],
      ink_nil,
    )
space_width_back-IsBlank c (b ∷ a ∷ s) (suc (suc (suc k))) h = ground arith

pub ink-trim_space : (s : Bytes) → ink (trim_space s) ≡ ink s
unfolding trim_space
ink-trim_space s =
    let front = skip space_width 0 s in
    ink-reverse (skip space_width_back 0 (reverse front))
    ∙ ap reverse (ink-skip space_width_back space_width_back-IsBlank 0 (reverse front) ink_nil)
    ∙ ap reverse (ink-reverse front)
    ∙ reverse-reverse (ink front)
    ∙ ink-skip space_width space_width-IsBlank 0 s ink_nil

ink-cons_head :
    (c : ℕ) (ps : List Bytes) → ink (flatten (cons_head c ps)) ≡ keep c (ink (flatten ps))
unfolding cons_head
ink-cons_head c [] = ink_one c []
ink-cons_head c (p ∷ ps) = ink_one c (p ++ flatten ps)

ink-split_from :
    (b : ℕ) (sep : Bytes)
    → ink (b ∷ sep) ≡ []
    → (k : ℕ) (s : Bytes) → ink (flatten (split_from (b ∷ sep) k s)) ≡ ink (drop k s)
ink-split_from b sep blank zero [] = unfold split_from in refl
ink-split_from b sep blank (suc k) [] = unfold split_from in refl
ink-split_from b sep blank (suc k) (c ∷ s) = rw split_from_skip (ink-split_from b sep blank k s)
ink-split_from b sep blank zero (c ∷ s) = elim (Bool-cases (has_prefix (c ∷ s) (b ∷ sep))) [
  | inl here ↦
      rw (split_from_here (b ∷ sep) c s here, sub-one_suc)
        (ink-split_from b sep blank (length sep) s
          ∙ sym (
              ap ink (drop-has_prefix (c ∷ s) (b ∷ sep) here)
              ∙ ink-append (b ∷ sep) (drop (length sep) s)
              ∙ ap (λ t. t ++ ink (drop (length sep) s)) blank))
  | inr next ↦ rw (split_from_next (b ∷ sep) c s next) (
      ink-cons_head c (split_from (b ∷ sep) 0 s)
      ∙ ap (keep c) (ink-split_from b sep blank 0 s)
      ∙ sym (ink_one c s))
]

-- Cutting at a separator without ink loses no ink.
pub ink-split :
    (s : Bytes) (b : ℕ) (sep : Bytes)
    → ink (b ∷ sep) ≡ []
    → ink (flatten (split s (b ∷ sep))) ≡ ink s
unfolding split
ink-split s b sep blank = ink-split_from b sep blank 0 s

-- Joining at a separator without ink adds none.
pub ink-join : (ps : List Bytes) (sep : Bytes) → ink sep ≡ [] → ink (join ps sep) ≡ ink (flatten ps)
unfolding join
ink-join [] sep blank = refl
ink-join (p ∷ []) sep blank = ap ink (sym (append-nil p))
ink-join (p ∷ q ∷ ps) sep blank =
    ink-append p (sep ++ join (q ∷ ps) sep)
    ∙ ap (λ t. ink p ++ t)
        (ink-append sep (join (q ∷ ps) sep)
          ∙ ap (λ t. t ++ ink (join (q ∷ ps) sep)) blank
          ∙ ink-join (q ∷ ps) sep blank)
    ∙ sym (ink-append p (flatten (q ∷ ps)))
