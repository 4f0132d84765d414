-- ===== src/PgVectorStore/Roundtrip.antt =====
-- A dimension that is printed, and read again.
use fileprocessor.Base.{
  ℕ, zero, suc, ◌+◌, ◌-◌, ◌*◌, ◌≤◌, ◌<◌, ◌≡◌, refl, ap, ◌∙◌, inr, true, false, some, [], ◌∷◌, ◌++◌,
  reverse, arith, ltb, ◌==◌, if_ind, lt→ltb, Bytes, codes, pos, length, All, All-reverse, and_then,
}
use Prim.Native.Nat.{◌/◌, ◌%◌, ◌^◌}
use mathlib.Core.List.{reverse-append, reverse-reverse}
use fileprocessor.Text.{
  trim_space, decimal, digits, skip, space_width, space_width_back, is_space_1, is_space_2,
  is_space_3,
}
use fileprocessor.Text.Laws.{skip_none}
use fileprocessor.PgVectorStore.Dimension.{
  after_first, before_last, reversed, parse_between, parse_behind, after_first, before_last,
  reversed, parse_between, parse_behind, read_digits, read_dimension, parse_pg_vector_dimension,
  int_of_bits,
}

abbrev IsDigit : ℕ → Type 0
IsDigit c = (b'0' ≤ c) × (c ≤ b'9')

digits-IsDigit : (fuel n : ℕ) (out : Bytes) → All IsDigit out → All IsDigit (digits fuel n out)
unfolding digits
digits-IsDigit zero n out h = h
digits-IsDigit (suc fuel) n out h =
    if_ind (All IsDigit) (ltb n 10) (λ small. ((omega arith, ground arith), h))
      (λ large.
        digits-IsDigit fuel (n / 10) ((b'0' + n % 10) ∷ out) ((omega arith, omega arith), h))

read_digits-cons :
    (dim c n : ℕ) (s : Bytes)
    → IsDigit c
    → dim * 10 + (c - b'0') ≡ n
    → n < 2 ^ 64
    → read_digits dim (c ∷ s) ≡ read_digits n s
unfolding read_digits
read_digits-cons dim c n s (low, high) e small =
    let first : ltb c b'0' ≡ false = ground (arith, low) in
    let second : ltb b'9' c ≡ false = ground (arith, high) in
    let fits : (dim * 10 + (c - b'0')) % 2 ^ 64 ≡ n = omega (arith, e, small) in
    rw (first, second, fits) refl

-- Reading the digits of a number in front of others gives the number as what was read before.
read_digits-digits :
    (fuel n : ℕ) (out : Bytes)
    → n < fuel
    → n < 2 ^ 64
    → read_digits 0 (digits fuel n out) ≡ read_digits n out
unfolding digits
read_digits-digits zero n out enough small = absurd (omega (arith, enough))
read_digits-digits (suc fuel) n out enough small =
    if_ind (λ (s : Bytes). read_digits 0 s ≡ read_digits n out) (ltb n 10)
      (λ one.
        read_digits-cons 0 (b'0' + n) n out (omega arith, ground (arith, one)) (omega arith) small)
      (λ more.
        read_digits-digits fuel (n / 10) ((b'0' + n % 10) ∷ out) (ground (arith, more, enough))
          (omega (arith, small))
        ∙ read_digits-cons (n / 10) (b'0' + n % 10) n out (omega arith, omega arith) (omega arith)
            small)

-- A text that begins and ends with digits is not trimmed.
front_digit : (c : ℕ) (s : Bytes) → IsDigit c → space_width (c ∷ s) ≡ 0
unfolding space_width is_space_1 is_space_2 is_space_3
front_digit c [] (low, high) = ground arith
front_digit c (d ∷ []) (low, high) = ground arith
front_digit c (d ∷ e ∷ s) (low, high) = ground arith

back_digit : (c : ℕ) (s : Bytes) → IsDigit c → space_width_back (c ∷ s) ≡ 0
unfolding space_width_back is_space_1 is_space_2 is_space_3
back_digit c [] (low, high) = ground arith
back_digit c (d ∷ []) (low, high) = ground arith
back_digit c (d ∷ e ∷ s) (low, high) = ground arith

skip-digits :
    (width : Bytes → ℕ) (s : Bytes)
    → ((c : ℕ) (t : Bytes) → IsDigit c → width (c ∷ t) ≡ 0)
    → All IsDigit s
    → skip width 0 s ≡ s
skip-digits width [] stop _ = unfold skip in refl
skip-digits width (c ∷ s) stop (hc, h) = skip_none width c s (stop c s hc)

trim-digits : (s : Bytes) → All IsDigit s → trim_space s ≡ s
unfolding trim_space
trim-digits s h =
    rw
      (
        skip-digits space_width s front_digit h,
        skip-digits space_width_back (reverse s) back_digit (All-reverse IsDigit s h),
      )
      (reverse-reverse s)

length-digits : (fuel n : ℕ) (out : Bytes) → length out ≤ length (digits fuel n out)
unfolding digits
length-digits zero n out = omega arith
length-digits (suc fuel) n out =
    if_ind (λ (s : Bytes). length out ≤ length s) (ltb n 10) (λ one. omega arith)
      (λ more. omega (arith, length-digits fuel (n / 10) ((b'0' + n % 10) ∷ out)))

digits-not_empty : (fuel n : ℕ) → 0 < fuel → length (digits fuel n []) == 0 ≡ false
unfolding digits
digits-not_empty zero n some_fuel = absurd (omega (arith, some_fuel))
digits-not_empty (suc fuel) n some_fuel =
    if_ind (λ (s : Bytes). length s == 0 ≡ false) (ltb n 10) (λ one. refl)
      (λ more. ground (arith, length-digits fuel (n / 10) ((b'0' + n % 10) ∷ [])))

decimal-not_empty : (n : ℕ) → length (decimal n) == 0 ≡ false
unfolding decimal
decimal-not_empty n = digits-not_empty (n + 1) n (omega arith)

read-decimal : (n : ℕ) → n < 2 ^ 63 → read_dimension (decimal n) ≡ inr (pos n)
unfolding read_dimension int_of_bits
read-decimal n small =
    let digits_only : All IsDigit (decimal n) = unfold decimal in digits-IsDigit (n + 1) n [] tt in
    let number : read_digits 0 (decimal n) ≡ inr n =
      unfold decimal in
      read_digits-digits (n + 1) n [] (omega arith) (omega (arith, small))
      ∙ unfold read_digits in refl in
    let positive : ltb n (2 ^ 63) ≡ true = lt→ltb n (2 ^ 63) small in
    rw (trim-digits (decimal n) digits_only, decimal-not_empty n, number)
      (unfold and_then in rw positive refl)

before_last-snoc : (s : Bytes) → before_last b')' (s ++ codes ")") ≡ some s
unfolding before_last after_first reversed
before_last-snoc s = rw (reverse-append s (codes ")")) (ap some (reverse-reverse s))

-- A dimension that a signed 64-bit integer can hold is read back from the type `vector(n)` that the
-- database prints for it.
pub parse_pg_vector_dimension-decimal :
    (n : ℕ)
    → n < 2 ^ 63
    → parse_pg_vector_dimension (codes "vector(" ++ (decimal n ++ codes ")")) ≡ inr (pos n)
unfolding parse_pg_vector_dimension after_first parse_behind parse_between
parse_pg_vector_dimension-decimal n small = rw before_last-snoc (read-decimal n small)
