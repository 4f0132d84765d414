-- ===== src/PgVectorStore/Dimension.antt =====
-- `parsePgVectorDimension` of pgvector_store.go, which reads what the database prints.
use fileprocessor.Base.{
  ℕ, ◌+◌, ◌-◌, ◌*◌, ◌≡◌, refl, ◌⊎◌, inl, inr, ◌||◌, Option, none, some, [], ◌∷◌, reverse, ltb, ◌==◌,
  if◌then◌else◌, Bytes, codes, ℤ, pos, negsuc, length, and_then,
}
use Prim.Native.Nat.{◌%◌, ◌^◌}
use fileprocessor.Text.{trim_space}

-- The 64 bits of an `int`, as the integer they stand for.
unfoldable pub int_of_bits : ℕ → ℤ
int_of_bits n = if ltb n (2 ^ 63) then pos n else negsuc (2 ^ 64 - n - 1)

pub data DimensionError : Type 0 where
  not_a_vector_type : DimensionError
  empty_dimension : DimensionError
  non_numeric_dimension : DimensionError

-- What stands behind the first byte `c`, if there is one.
unfoldable pub after_first : ℕ → Bytes → Option Bytes
after_first c [] = none
after_first c (b ∷ s) = if b == c then some s else after_first c s

-- What stands before the last byte `c`: `none` if there is none.
unfoldable pub reversed : Option Bytes → Option Bytes
reversed none = none
reversed (some s) = some (reverse s)

unfoldable pub before_last : ℕ → Bytes → Option Bytes
unfolding after_first reversed
before_last c s = reversed (after_first c (reverse s))

-- The loop over the digits, on the bits of an `int`.
unfoldable pub read_digits : ℕ → Bytes → DimensionError ⊎ ℕ
read_digits dim [] = inr dim
read_digits dim (c ∷ s) =
    let rest = read_digits ((dim * 10 + (c - b'0')) % 2 ^ 64) s in
    if ltb c b'0' || ltb b'9' c then inl non_numeric_dimension else rest

-- `dataType[open+1 : close]`, trimmed.
unfoldable pub read_dimension : Bytes → DimensionError ⊎ ℤ
unfolding read_digits
read_dimension between =
    let d = trim_space between in
    if length d == 0
    then inl empty_dimension
    else and_then (read_digits 0 d) (λ dim. inr (int_of_bits dim))

-- What is read between the parentheses, if they are there.
unfoldable pub parse_between : Option Bytes → DimensionError ⊎ ℤ
parse_between none = inl not_a_vector_type
parse_between (some between) = read_dimension between

unfoldable pub parse_behind : Option Bytes → DimensionError ⊎ ℤ
parse_behind none = inl not_a_vector_type
parse_behind (some behind) = parse_between (before_last b')' behind)

-- `parsePgVectorDimension`. Behind the first `(` there is a `)` exactly if the last `)` stands
-- behind it.
unfoldable pub parse_pg_vector_dimension : Bytes → DimensionError ⊎ ℤ
unfolding after_first parse_between parse_behind
parse_pg_vector_dimension data_type = parse_behind (after_first b'(' data_type)

read : parse_pg_vector_dimension (codes "vector( 384 )") ≡ inr (pos 384)
unfolding parse_pg_vector_dimension read_dimension before_last int_of_bits
read = unfold trim_space and_then in refl
