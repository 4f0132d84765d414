-- ===== src/Text/Laws.antt =====
-- `Split`, `Join` and `TrimSpace` against one another.
use mathlib.Core.List.{reverse-append}
use fileprocessor.Base.{
  ℕ, zero, suc, ◌-◌, ◌≤◌, ◌≡◌, refl, sym, ap, ◌∙◌, ◌≢◌, ◌⊎◌, inl, inr, true, false, List, [], ◌∷◌,
  ◌++◌, reverse, arith, ◌==◌, Bool-cases, Bytes, length, drop, length-append,
}
use fileprocessor.Text.{
  has_prefix, cons_head, split_from, split, join, skip, trim_space, space_width, space_width_back,
}

pub drop-has_prefix : (s p : Bytes) → has_prefix s p ≡ true → s ≡ p ++ drop (length p) s
unfolding has_prefix
drop-has_prefix s [] h = refl
drop-has_prefix [] (b ∷ p) h = ground arith
drop-has_prefix (c ∷ s) (b ∷ p) h = ground (arith, drop-has_prefix s p)

pub split_from_here :
    (sep : Bytes) (c : ℕ) (s : Bytes)
    → has_prefix (c ∷ s) sep ≡ true
    → split_from sep 0 (c ∷ s) ≡ [] ∷ split_from sep (length sep - 1) s
unfolding split_from
split_from_here sep c s h = rw (h, split_from)

pub split_from_skip :
    (sep : Bytes) (k c : ℕ) (s : Bytes) → split_from sep (suc k) (c ∷ s) ≡ split_from sep k s
unfolding split_from
split_from_skip sep k c s = refl

pub split_from_next :
    (sep : Bytes) (c : ℕ) (s : Bytes)
    → has_prefix (c ∷ s) sep ≡ false
    → split_from sep 0 (c ∷ s) ≡ cons_head c (split_from sep 0 s)
unfolding split_from
split_from_next sep c s h = rw (h, split_from)

cons_head-ne-nil : (c : ℕ) (ps : List Bytes) → cons_head c ps ≢ []
unfolding cons_head
cons_head-ne-nil c [] h = cc
cons_head-ne-nil c (p ∷ ps) h = cc

pub split_from-ne-nil : (sep : Bytes) (k : ℕ) (s : Bytes) → split_from sep k s ≢ []
split_from-ne-nil sep k [] h = unfold split_from in cc
split_from-ne-nil sep (suc k) (c ∷ s) h = split_from-ne-nil sep k s (unfold split_from in h)
split_from-ne-nil sep zero (c ∷ s) h = elim (Bool-cases (has_prefix (c ∷ s) sep)) [
  | inl here ↦ cc (split_from_here sep c s here)
  | inr next ↦ cons_head-ne-nil c (split_from sep 0 s) (sym (split_from_next sep c s next) ∙ h)
]

pub sub-one_suc : (n : ℕ) → suc n - 1 ≡ n
sub-one_suc n = omega arith

join-cons_head :
    (c : ℕ) (ps : List Bytes) (sep : Bytes) → ps ≢ [] → join (cons_head c ps) sep ≡ c ∷ join ps sep
unfolding join cons_head
join-cons_head c [] sep h = absurd (h refl)
join-cons_head c (p ∷ []) sep h = refl
join-cons_head c (p ∷ q ∷ ps) sep h = refl

join-nil_cons : (ps : List Bytes) (sep : Bytes) → ps ≢ [] → join ([] ∷ ps) sep ≡ sep ++ join ps sep
unfolding join
join-nil_cons [] sep h = absurd (h refl)
join-nil_cons (p ∷ ps) sep h = refl

join-split_from :
    (b : ℕ) (sep : Bytes) (k : ℕ) (s : Bytes) → join (split_from (b ∷ sep) k s) (b ∷ sep) ≡ drop k s
join-split_from b sep zero [] = unfold join split_from in refl
join-split_from b sep (suc k) [] = unfold join split_from in refl
join-split_from b sep (suc k) (c ∷ s) = rw split_from_skip (join-split_from b sep k s)
join-split_from b sep zero (c ∷ s) = elim (Bool-cases (has_prefix (c ∷ s) (b ∷ sep))) [
  | inl here ↦
      let rest = split_from-ne-nil (b ∷ sep) (length sep) s in
      rw (split_from_here _ c s here, sub-one_suc, join-nil_cons _ (b ∷ sep) rest)
        (rw (join-split_from b sep (length sep) s) (sym (drop-has_prefix (c ∷ s) (b ∷ sep) here)))
  | inr next ↦
      let rest = split_from-ne-nil (b ∷ sep) 0 s in
      rw (split_from_next _ c s next, join-cons_head c _ (b ∷ sep) rest)
        (ap (◌∷◌ c) (join-split_from b sep 0 s))
]

-- Joining the parts of a split gives the text back.
pub join-split : (s : Bytes) (b : ℕ) (sep : Bytes) → join (split s (b ∷ sep)) (b ∷ sep) ≡ s
unfolding split
join-split s b sep = join-split_from b sep 0 s

pub skip_over :
    (width : Bytes → ℕ) (k c : ℕ) (s : Bytes) → skip width (suc k) (c ∷ s) ≡ skip width k s
unfolding skip
skip_over width k c s = refl

pub skip_none :
    (width : Bytes → ℕ) (c : ℕ) (s : Bytes) → width (c ∷ s) ≡ 0 → skip width 0 (c ∷ s) ≡ c ∷ s
unfolding skip
skip_none width c s h = rw (h, skip)

pub skip_some :
    (width : Bytes → ℕ) (c : ℕ) (s : Bytes) {k : ℕ}
    → width (c ∷ s) ≡ suc k
    → skip width 0 (c ∷ s) ≡ skip width k s
unfolding skip
skip_some width c s h = rw (h, skip)

pub ℕ-cases : (n : ℕ) → (n ≡ 0) ⊎ ((k : ℕ) × (n ≡ suc k))
ℕ-cases zero = inl refl
ℕ-cases (suc k) = inr (k, refl)

length-skip : (width : Bytes → ℕ) (k : ℕ) (s : Bytes) → length (skip width k s) ≤ length s
length-skip width k [] = unfold skip in omega arith
length-skip width (suc k) (c ∷ s) = rw skip_over (omega (arith, length-skip width k s))
length-skip width zero (c ∷ s) = elim (ℕ-cases (width (c ∷ s))) [
  | inl stop ↦ rw (skip_none width c s stop) (omega arith)
  | inr (k, more) ↦ rw (skip_some width c s more) (omega (arith, length-skip width k s))
]

length-reverse : (s : Bytes) → length (reverse s) ≡ length s
length-reverse [] = refl
length-reverse (c ∷ s) =
    rw (reverse-append (c ∷ []) s)
      (omega (arith, length-reverse s, length-append (reverse s) (c ∷ [])))

-- Trimming never makes a text longer.
length-trim_space : (s : Bytes) → length (trim_space s) ≤ length s
unfolding trim_space
length-trim_space s = omega (
  arith,
  length-reverse (skip space_width_back 0 (reverse (skip space_width 0 s))),
  length-skip space_width_back 0 (reverse (skip space_width 0 s)),
  length-reverse (skip space_width 0 s),
  length-skip space_width 0 s,
)

pub join-cons :
    (p : Bytes) (ps : List Bytes) (sep : Bytes)
    → ps ≢ []
    → join (p ∷ ps) sep ≡ p ++ (sep ++ join ps sep)
unfolding join
join-cons p [] sep h = absurd (h refl)
join-cons p (q ∷ ps) sep h = refl

here_one : (b c : ℕ) (s : Bytes) → c == b ≡ true → has_prefix (c ∷ s) (b ∷ []) ≡ true
unfolding has_prefix
here_one b c s h = rw h refl

next_one : (b c : ℕ) (s : Bytes) → c == b ≡ false → has_prefix (c ∷ s) (b ∷ []) ≡ false
unfolding has_prefix
next_one b c s h = rw h refl

-- The split by a separator of one byte, at a byte.
pub split_here :
    (b c : ℕ) (s : Bytes) → c == b ≡ true → split (c ∷ s) (b ∷ []) ≡ [] ∷ split s (b ∷ [])
unfolding split
split_here b c s h = split_from_here (b ∷ []) c s (here_one b c s h)

pub split_next :
    (b c : ℕ) (s : Bytes) → c == b ≡ false → split (c ∷ s) (b ∷ []) ≡ cons_head c (split s (b ∷ []))
unfolding split
split_next b c s h = split_from_next (b ∷ []) c s (next_one b c s h)

cons_head-append :
    (c : ℕ) (ps qs : List Bytes) → ps ≢ [] → cons_head c (ps ++ qs) ≡ cons_head c ps ++ qs
unfolding cons_head
cons_head-append c [] qs h = absurd (h refl)
cons_head-append c (p ∷ ps) qs h = refl

-- The parts of two texts with a separator of one byte between them.
pub split-append :
    (b : ℕ) (s t : Bytes) → split (s ++ b ∷ t) (b ∷ []) ≡ split s (b ∷ []) ++ split t (b ∷ [])
split-append b [] t = split_here b b t (ground arith) ∙ unfold split split_from in refl
split-append b (c ∷ s) t = elim (Bool-cases (c == b)) [
  | inl here ↦
      rw (split_here b c (s ++ b ∷ t) here, split_here b c s here)
        (ap (◌∷◌ []) (split-append b s t))
  | inr next ↦
      let some_part : split s (b ∷ []) ≢ [] = unfold split in split_from-ne-nil (b ∷ []) 0 s in
      rw (split_next b c (s ++ b ∷ t) next, split_next b c s next, split-append b s t)
        (cons_head-append c (split s (b ∷ [])) (split t (b ∷ [])) some_part)
]
