-- ===== src/Paths.antt =====
-- The functions of Go's `path/filepath` on a system whose separator is `/`, and of `strings` on
-- file names, that the library calls.
pub mod Clean
use fileprocessor.Base.{
  ℕ, zero, suc, ◌+◌, ◌≡◌, refl, Bool, true, false, ◌&&◌, ◌||◌, List, [], ◌∷◌, ◌++◌, reverse, leb,
  ◌==◌, if◌then◌else◌, Bytes, codes, bytes_eq, length,
}
use fileprocessor.Text.{has_prefix, split, join}

-- Whether a text is one of a table's.
unfoldable pub is_member : Bytes → List Bytes → Bool
is_member s [] = false
is_member s (t ∷ ts) = bytes_eq t s || is_member s ts

abbrev lower : ℕ → ℕ
lower c = if leb b'A' c && leb c b'Z' then c + 32 else c

-- `strings.ToLower(s)`. Besides the letters of ASCII, it maps the two other characters whose lower
-- case is one of them: U+212A and U+0130. Other characters are kept: their lower case is not in
-- ASCII, and so in none of the library's tables.
-- The number counts the bytes of such a character that are still to be passed over.
unfoldable pub to_lower_from : ℕ → Bytes → Bytes
to_lower_from k [] = []
to_lower_from (suc k) (c ∷ s) = to_lower_from k s
to_lower_from zero (c ∷ s) = elim (has_prefix (c ∷ s) (0xe2 ∷ 0x84 ∷ 0xaa ∷ [])) [
  | true ↦ b'k' ∷ to_lower_from 2 s
  | false ↦ elim (has_prefix (c ∷ s) (0xc4 ∷ 0xb0 ∷ [])) [
    | true ↦ b'i' ∷ to_lower_from 1 s
    | false ↦ lower c ∷ to_lower_from 0 s
  ]
]

unfoldable pub to_lower : Bytes → Bytes
unfolding to_lower_from has_prefix
to_lower s = to_lower_from 0 s

-- `strings.TrimPrefix(s, ".")`.
unfoldable pub trim_dot : Bytes → Bytes
trim_dot [] = []
trim_dot (c ∷ s) = if c == b'.' then s else c ∷ s

-- The loop of `filepath.Ext` from the end of the path, with the bytes it has passed.
unfoldable pub ext_loop : Bytes → Bytes → Bytes
ext_loop [] passed = []
ext_loop (c ∷ s) passed =
    let rest = ext_loop s (c ∷ passed) in
    if c == b'/' then [] else if c == b'.' then c ∷ passed else rest

-- `filepath.Ext(path)`.
unfoldable pub ext : Bytes → Bytes
unfolding ext_loop
ext path = ext_loop (reverse path) []

-- Takes the separators off the front.
unfoldable pub drop_slashes : Bytes → Bytes
drop_slashes [] = []
drop_slashes (c ∷ s) = if c == b'/' then drop_slashes s else c ∷ s

-- The bytes before the first separator.
unfoldable pub until_slash : Bytes → Bytes
until_slash [] = []
until_slash (c ∷ s) = if c == b'/' then [] else c ∷ until_slash s

-- `filepath.Base(path)`.
unfoldable pub base_name : Bytes → Bytes
unfolding drop_slashes until_slash
base_name [] = codes "."
base_name (c ∷ s) = elim (reverse (until_slash (drop_slashes (reverse (c ∷ s))))) [
  | [] ↦ codes "/"
  | d ∷ name ↦ d ∷ name
]

-- `filepath.IsAbs(path)`.
unfoldable pub is_abs : Bytes → Bool
is_abs [] = false
is_abs (c ∷ s) = c == b'/'

abbrev pub dots : Bytes
dots = codes ".."

-- What the element `..` does to the elements so far, the last one in front.
unfoldable pub go_up : Bool → List Bytes → List Bytes
go_up rooted [] = if rooted then [] else dots ∷ []
go_up rooted (e ∷ es) = if bytes_eq e dots then dots ∷ e ∷ es else es

-- What an element of a path does to the elements so far.
unfoldable pub add_element : Bool → Bytes → List Bytes → List Bytes
unfolding go_up
add_element rooted e es =
    if length e == 0 || bytes_eq e (codes ".")
    then es
    else if bytes_eq e dots
    then go_up rooted es
    else e ∷ es

unfoldable pub clean_elements : Bool → List Bytes → List Bytes → List Bytes
unfolding add_element
clean_elements rooted [] es = es
clean_elements rooted (e ∷ rest) es = clean_elements rooted rest (add_element rooted e es)

unfoldable pub rooted_path : List Bytes → Bytes
rooted_path es = b'/' ∷ join es (codes "/")

unfoldable pub relative_path : List Bytes → Bytes
relative_path [] = codes "."
relative_path (e ∷ es) = join (e ∷ es) (codes "/")

-- `filepath.Clean(path)`.
unfoldable pub clean : Bytes → Bytes
unfolding clean_elements is_abs rooted_path relative_path
clean path =
    let elements = reverse (clean_elements (is_abs path) (split path (codes "/")) []) in
    if is_abs path then rooted_path elements else relative_path elements

-- `filepath.Join(a, b)`.
unfoldable pub join_path : Bytes → Bytes → Bytes
unfolding clean
join_path [] [] = []
join_path [] (c ∷ b) = clean (c ∷ b)
join_path (c ∷ a) [] = clean (c ∷ a)
join_path (c ∷ a) (d ∷ b) = clean ((c ∷ a) ++ (codes "/" ++ d ∷ b))

-- What is left of a path from its end on, behind its last element.
unfoldable pub from_slash : Bytes → Bytes
from_slash [] = []
from_slash (c ∷ s) = if c == b'/' then c ∷ s else from_slash s

-- `filepath.Dir(path)`.
unfoldable pub dir : Bytes → Bytes
unfolding clean from_slash
dir path = clean (reverse (from_slash (reverse path)))

named : base_name (codes "/tmp/a.tar.gz/") ≡ codes "a.tar.gz"
unfolding base_name
named = refl

extended : ext (codes "/tmp.d/a.tar.GZ") ≡ codes ".GZ" × (ext (codes "/tmp.d/a") ≡ [])
unfolding ext
extended = (refl, refl)

lowered : to_lower (codes "MKV") ≡ codes "mkv"
unfolding to_lower
lowered = refl

cleaned : clean (codes "/a/./b//../c/") ≡ codes "/a/c" × (clean (codes "a/../../b") ≡ codes "../b")
unfolding clean
cleaned = (unfold split join in refl, unfold split join in refl)

joined : join_path (codes "/data/") (codes "uploads/a") ≡ codes "/data/uploads/a"
unfolding join_path clean
joined = unfold split join in refl

above : dir (codes "/data/uploads/a") ≡ codes "/data/uploads"
unfolding dir clean
above = unfold split join in refl
