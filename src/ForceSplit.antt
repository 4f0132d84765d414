-- ===== src/ForceSplit.antt =====
-- `forceSplit` of chunker.go and `RAGChunker.forceSplitBySize` of rag_chunker.go, which have the
-- same body: windows of a fixed number of bytes.
pub mod Windows
use fileprocessor.Base.{
  ℕ, zero, suc, ◌+◌, ◌-◌, ◌≤◌, ◌<◌, ◌≡◌, refl, ap, ◌∙◌, Bool, List, [], ◌∷◌, Bytes, codes, arith,
  leb, ltb, ◌==◌, if◌then◌else◌, length, take, drop, length-drop, if_ind,
}

-- The distance between the beginnings of two windows; `-` stops at 0, and `<= 0` is `== 0`.
unfoldable pub window_step : ℕ → ℕ → ℕ
window_step size overlap = if size - overlap == 0 then size else size - overlap

-- The loop, on fuel: each round but the last takes `step` bytes off the text.
unfoldable pub force_loop : ℕ → ℕ → ℕ → Bytes → List Bytes
force_loop zero size overlap text = []
force_loop (suc fuel) size overlap text =
    let rest = force_loop fuel size overlap (drop (window_step size overlap) text) in
    if length text == 0
    then []
    else if leb (length text) size
    then text ∷ []
    else take size text ∷ rest

unfoldable pub force_split : Bytes → ℕ → ℕ → List Bytes
unfolding force_loop window_step
force_split text size overlap = force_loop (length text) size overlap text

pub window_step_pos : (size overlap : ℕ) → 0 < size → 0 < window_step size overlap
unfolding window_step
window_step_pos size overlap h = ground arith

-- Fuel beyond the length of the text changes nothing.
force_loop_fuel :
    (f g size overlap : ℕ) (text : Bytes)
    → 0 < size
    → length text ≤ f
    → length text ≤ g
    → force_loop f size overlap text ≡ force_loop g size overlap text
unfolding force_loop
force_loop_fuel zero zero size overlap text h hf hg = refl
force_loop_fuel zero (suc g) size overlap text h hf hg = ground arith
force_loop_fuel (suc f) zero size overlap text h hf hg = ground arith
force_loop_fuel (suc f) (suc g) size overlap text h hf hg =
    let step = window_step size overlap in
    ground (
      arith,
      window_step_pos size overlap h,
      length-drop step text,
      force_loop_fuel f g size overlap (drop step text),
    )

force_split-force_loop :
    (f size overlap : ℕ) (text : Bytes)
    → 0 < size
    → length text ≤ f
    → force_loop f size overlap text ≡ force_split text size overlap
force_split-force_loop f size overlap text h enough =
    unfold force_split in force_loop_fuel f (length text) size overlap text h enough (omega arith)

-- What one round of the loop does, its own call made on the fuel left.
abbrev round : Bytes → ℕ → ℕ → List Bytes → List Bytes
round text size overlap rest =
    if length text == 0
    then []
    else if leb (length text) size
    then text ∷ []
    else take size text ∷ rest

force_split_cons :
    (c : ℕ) (s : Bytes) (size overlap : ℕ)
    → force_split (c ∷ s) size overlap
      ≡ round
          (c ∷ s)
          size
          overlap
          (force_loop (length s) size overlap (drop (window_step size overlap) (c ∷ s)))
unfolding force_split
force_split_cons c s size overlap = refl

-- For a positive size the loop ends: the fuel is enough for the function to satisfy the equation
-- of the loop, at every text and overlap.
pub force_split_step :
    (text : Bytes) (size overlap : ℕ)
    → 0 < size
    → force_split text size overlap ≡ (
        if length text == 0
        then []
        else if leb (length text) size
        then text ∷ []
        else take size text ∷ force_split (drop (window_step size overlap) text) size overlap)
force_split_step [] size overlap h = unfold force_split in refl
force_split_step (c ∷ s) size overlap h =
    let step = window_step size overlap in
    force_split_cons c s size overlap
    ∙ ap (round (c ∷ s) size overlap) (
        force_split-force_loop (length s) size overlap (drop step (c ∷ s)) h
          (omega (arith, window_step_pos size overlap h, length-drop step (c ∷ s))))

overlapping : force_split (codes "abcdefg") 4 1 ≡ codes "abcd" ∷ codes "defg" ∷ []
unfolding force_split
overlapping = refl
