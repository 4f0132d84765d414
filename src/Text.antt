-- ===== src/Text.antt =====
-- The functions of Go's `strings` and `unicode/utf8` that the library calls, over the bytes of a
-- string.
pub mod Laws
pub mod Ink
use Prim.Native.Nat.{◌/◌, ◌%◌}
use fileprocessor.Base.{
  ℕ, zero, suc, ◌+◌, ◌-◌, ◌≡◌, refl, Bool, true, false, ◌&&◌, ◌||◌, List, [], ◌∷◌, ◌++◌, reverse,
  ltb, leb, ◌==◌, if◌then◌else◌, Bytes, codes, length,
}

-- `strings.HasPrefix(s, p)`.
unfoldable pub has_prefix : Bytes → Bytes → Bool
has_prefix s [] = true
has_prefix [] (b ∷ p) = false
has_prefix (c ∷ s) (b ∷ p) = c == b && has_prefix s p

-- `strings.Contains(s, sep)`.
unfoldable pub contains : Bytes → Bytes → Bool
unfolding has_prefix
contains [] sep = has_prefix [] sep
contains (c ∷ s) sep = has_prefix (c ∷ s) sep || contains s sep

-- Puts a byte in front of the first part.
unfoldable pub cons_head : ℕ → List Bytes → List Bytes
cons_head c [] = (c ∷ []) ∷ []
cons_head c (p ∷ ps) = (c ∷ p) ∷ ps

-- `strings.Split(s, sep)` for a separator that is not empty. The number counts the bytes of a
-- separator that are still to be passed over.
unfoldable pub split_from : Bytes → ℕ → Bytes → List Bytes
unfolding has_prefix cons_head
split_from sep k [] = [] ∷ []
split_from sep (suc k) (c ∷ s) = split_from sep k s
split_from sep zero (c ∷ s) = elim (has_prefix (c ∷ s) sep) [
  | true ↦ [] ∷ split_from sep (length sep - 1) s
  | false ↦ cons_head c (split_from sep 0 s)
]

unfoldable pub split : Bytes → Bytes → List Bytes
unfolding split_from
split s sep = split_from sep 0 s

-- `strings.Join(parts, sep)`.
unfoldable pub join : List Bytes → Bytes → Bytes
join [] sep = []
join (p ∷ []) sep = p
join (p ∷ q ∷ ps) sep = p ++ (sep ++ join (q ∷ ps) sep)

-- The white space characters of `unicode.IsSpace`, by the bytes of their encoding: those of ASCII,
-- U+0085 and U+00A0, and U+1680, U+2000 to U+200A, U+2028, U+2029, U+202F, U+205F and U+3000.
unfoldable pub is_space_1 : ℕ → Bool
is_space_1 a = a == 32 || leb 9 a && leb a 13

unfoldable pub is_space_2 : ℕ → ℕ → Bool
is_space_2 a b = a == 0xc2 && (b == 0x85 || b == 0xa0)

unfoldable pub is_space_3 : ℕ → ℕ → ℕ → Bool
is_space_3 a b c =
    a == 0xe1 && b == 0x9a && c == 0x80
    || a == 0xe2 && b == 0x80 && (leb 0x80 c && leb c 0x8a || c == 0xa8 || c == 0xa9 || c == 0xaf)
    || a == 0xe2 && b == 0x81 && c == 0x9f
    || a == 0xe3 && b == 0x80 && c == 0x80

-- The number of bytes of the white space character that a text begins with, or 0.
unfoldable pub space_width : Bytes → ℕ
space_width [] = 0
space_width (a ∷ []) = if is_space_1 a then 1 else 0
space_width (a ∷ b ∷ []) = if is_space_1 a then 1 else if is_space_2 a b then 2 else 0
space_width (a ∷ b ∷ c ∷ s) =
    if is_space_1 a then 1 else if is_space_2 a b then 2 else if is_space_3 a b c then 3 else 0

-- The same for the character that a text ends with, the text given from its end.
unfoldable pub space_width_back : Bytes → ℕ
space_width_back [] = 0
space_width_back (a ∷ []) = if is_space_1 a then 1 else 0
space_width_back (b ∷ a ∷ []) = if is_space_1 b then 1 else if is_space_2 a b then 2 else 0
space_width_back (c ∷ b ∷ a ∷ s) =
    if is_space_1 c then 1 else if is_space_2 b c then 2 else if is_space_3 a b c then 3 else 0

-- Passes over the leading characters to which `width` gives a width.
unfoldable pub skip : (Bytes → ℕ) → ℕ → Bytes → Bytes
skip width k [] = []
skip width (suc k) (c ∷ s) = skip width k s
skip width zero (c ∷ s) = elim (width (c ∷ s)) [ zero ↦ c ∷ s | suc k ↦ skip width k s ]

-- `strings.TrimSpace(s)`.
unfoldable pub trim_space : Bytes → Bytes
unfolding skip space_width space_width_back is_space_1 is_space_2 is_space_3
trim_space s = reverse (skip space_width_back 0 (reverse (skip space_width 0 s)))

-- `strings.Count(s, sub)` for a `sub` that is not empty: occurrences that do not overlap.
unfoldable pub count_from : Bytes → ℕ → Bytes → ℕ
unfolding has_prefix
count_from sub k [] = 0
count_from sub (suc k) (c ∷ s) = count_from sub k s
count_from sub zero (c ∷ s) = elim (has_prefix (c ∷ s) sub) [
  | true ↦ suc (count_from sub (length sub - 1) s)
  | false ↦ count_from sub 0 s
]

unfoldable pub count : Bytes → Bytes → ℕ
unfolding count_from
count s sub = count_from sub 0 s

-- `fmt.Sprintf("%d", n)`: the digits, on fuel that exceeds their number.
unfoldable pub digits : ℕ → ℕ → Bytes → Bytes
digits zero n out = out
digits (suc fuel) n out =
    let more = digits fuel (n / 10) ((b'0' + n % 10) ∷ out) in
    if ltb n 10 then (b'0' + n) ∷ out else more

unfoldable pub decimal : ℕ → Bytes
unfolding digits
decimal n = digits (n + 1) n []

fences : count (codes "``````x") (codes "```") ≡ 2
unfolding count
fences = refl

printed : decimal 1205 ≡ codes "1205"
unfolding decimal
printed = refl

split_twice : split (codes "a, b, c") (codes ", ") ≡ codes "a" ∷ codes "b" ∷ codes "c" ∷ []
unfolding split
split_twice = refl

trim_both : trim_space (codes " \tab c\n ") ≡ codes "ab c"
unfolding trim_space
trim_both = refl
