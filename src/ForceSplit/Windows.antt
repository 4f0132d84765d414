-- ===== src/ForceSplit/Windows.antt =====
-- The windows are small, and together they spell the text.
use fileprocessor.Base.{
  ℕ, zero, suc, ◌+◌, ◌≤◌, ◌<◌, ◌≡◌, refl, ap, sym, ◌∙◌, List, [], ◌∷◌, ◌++◌, append-nil, Bytes,
  arith, leb, ◌==◌, length, take, drop, length-drop, length-take, take-append-drop, if_ind, All,
  flatten, map, ◌⊎◌,
}
use fileprocessor.ForceSplit.{window_step, force_loop, force_split}

force_loop_bounded :
    (f size overlap : ℕ) (text : Bytes)
    → All (λ (c : Bytes). length c ≤ size) (force_loop f size overlap text)
unfolding force_loop
force_loop_bounded zero size overlap text = tt
force_loop_bounded (suc f) size overlap text =
    let rest = force_loop_bounded f size overlap (drop (window_step size overlap) text) in
    if_ind (All (λ (c : Bytes). length c ≤ size)) (length text == 0) (λ _. tt)
      λ _.
        if_ind (All (λ (c : Bytes). length c ≤ size)) (leb (length text) size)
          (λ small. (ground arith, tt)) (λ _. (omega (arith, length-take size text), rest))

-- No window is longer than the size.
pub force_split_bounded :
    (text : Bytes) (size overlap : ℕ)
    → All (λ (c : Bytes). length c ≤ size) (force_split text size overlap)
unfolding force_split
force_split_bounded text size overlap = force_loop_bounded (length text) size overlap text

drop_nil : (n : ℕ) → drop {A = ℕ} n [] ≡ []
drop_nil zero = refl
drop_nil (suc n) = refl

drop-drop : (m n k : ℕ) (xs : Bytes) → m + n ≡ k → drop n (drop m xs) ≡ drop k xs
drop-drop zero n k xs e = let e' : n ≡ k = omega arith in rw e'
drop-drop (suc m) n zero xs e = absurd (omega arith)
drop-drop (suc m) n (suc k) [] e = drop_nil n
drop-drop (suc m) n (suc k) (x ∷ xs) e = drop-drop m n k xs (omega arith)

drop-append_le : (n : ℕ) (xs ys : Bytes) → n ≤ length xs → drop n (xs ++ ys) ≡ drop n xs ++ ys
drop-append_le zero xs ys h = refl
drop-append_le (suc n) [] ys h = absurd (omega arith)
drop-append_le (suc n) (x ∷ xs) ys h = drop-append_le n xs ys (omega arith)

-- Every window but its first `overlap` bytes, one after the other.
pub stitch : ℕ → List Bytes → Bytes
stitch overlap cs = flatten (map (drop overlap) cs)

take-append-drop_mid :
    (o size : ℕ) (text : Bytes)
    → o ≤ size
    → size ≤ length text
    → drop o (take size text) ++ drop size text ≡ drop o text
take-append-drop_mid o size text h long =
    sym (drop-append_le o (take size text) (drop size text) (omega (arith, length-take size text)))
    ∙ ap (drop o) (take-append-drop size text)

-- `o` is the overlap that the windows really have.
stitch-force_loop :
    (f size overlap o : ℕ) (text : Bytes)
    → 0 < window_step size overlap
    → window_step size overlap + o ≡ size
    → length text ≤ f
    → stitch o (force_loop f size overlap text) ≡ drop o text
unfolding force_loop stitch
stitch-force_loop zero size overlap o [] pos e h = sym (drop_nil o)
stitch-force_loop zero size overlap o (c ∷ s) pos e h = absurd (omega arith)
stitch-force_loop (suc f) size overlap o [] pos e h = sym (drop_nil o)
stitch-force_loop (suc f) size overlap o (c ∷ s) pos e h =
    let text = c ∷ s in
    let step = window_step size overlap in
    let rest =
      stitch-force_loop f size overlap o (drop step text) pos e
        (omega (arith, length-drop step text)) in
    let goal = λ (cs : List Bytes). flatten (map (drop o) cs) ≡ drop o text in
    if_ind goal (length text == 0) (λ zero_length. absurd (ground arith))
      λ _.
        if_ind goal (leb (length text) size) (λ _. append-nil (drop o text))
          (λ large.
            ap (λ (t : Bytes). drop o (take size text) ++ t)
              (rest ∙ drop-drop step o size text (omega arith))
            ∙ take-append-drop_mid o size text (omega arith) (ground arith))

-- With an overlap below the size, the first `overlap` bytes of the text and then each window
-- without its first `overlap` bytes spell the text: nothing is lost, and nothing but the overlap is
-- repeated.
pub force_split_covers :
    (text : Bytes) (size overlap : ℕ)
    → overlap < size
    → take overlap text ++ stitch overlap (force_split text size overlap) ≡ text
unfolding force_split
force_split_covers text size overlap h =
    ap (λ (t : Bytes). take overlap text ++ t)
      (stitch-force_loop (length text) size overlap overlap text (ground arith) (ground arith)
        (omega arith))
    ∙ take-append-drop overlap text

flatten-stitch : (cs : List Bytes) → stitch 0 cs ≡ flatten cs
unfolding stitch
flatten-stitch [] = refl
flatten-stitch (c ∷ cs) = ap (λ (t : Bytes). c ++ t) (flatten-stitch cs)

-- With no overlap, or with one that the size leaves no room for, the windows are a partition.
pub flatten-force_split :
    (text : Bytes) (size overlap : ℕ)
    → 0 < size
    → (overlap ≡ 0) ⊎ (size ≤ overlap)
    → flatten (force_split text size overlap) ≡ text
unfolding force_split
flatten-force_split text size overlap h room =
    sym (flatten-stitch (force_split text size overlap))
    ∙ stitch-force_loop (length text) size overlap 0 text (ground arith) (ground arith)
        (omega arith)
