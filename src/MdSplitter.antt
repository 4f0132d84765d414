-- ===== src/MdSplitter.antt =====
-- mdsplitter.go: markdown cut at its headers.
pub mod Lines
pub mod Headers
use fileprocessor.Base.{
  ℕ, ◌⊎◌, inl, inr, Bool, true, false, ◌&&◌, Option, none, some, List, [], ◌∷◌, ◌++◌, leb, ◌==◌,
  if◌then◌else◌, Bytes, codes, bytes_eq, length, drop,
}
use fileprocessor.Text.{has_prefix, split, join, trim_space, count}

-- The keys of a Go map are distinct; the order of the list is the order of an iteration.
abbrev pub StringMap : Type 0
StringMap = List (Bytes × Bytes)

unfoldable pub lookup : Bytes → StringMap → Option Bytes
lookup k [] = none
lookup k ((j, v) ∷ m) = if bytes_eq j k then some v else lookup k m

unfoldable pub delete : Bytes → StringMap → StringMap
delete k [] = []
delete k ((j, v) ∷ m) = if bytes_eq j k then delete k m else (j, v) ∷ delete k m

unfoldable pub insert : Bytes → Bytes → StringMap → StringMap
insert k v m = (k, v) ∷ delete k m

pub record MdSplitterConfig : Type 0 where
  pub headers : StringMap
  pub trim_headers : Bool

pub record MdSplitter : Type 0 where
  pub headers : StringMap
  pub trim_headers : Bool

pub record MdSplitterChunk : Type 0 where
  pub content : Bytes
  pub metadata : StringMap

pub record MetaRecord : Type 0 where
  pub name : Bytes
  pub level : ℕ
  pub heading : Bytes

pub data SplitterError : Type 0 where
  nil_config : SplitterError
  no_headers : SplitterError
  bad_header : Bytes → SplitterError

unfoldable pub is_hashes : Bytes → Bool
is_hashes [] = true
is_hashes (c ∷ s) = c == b'#' && is_hashes s

unfoldable pub find_bad_header : StringMap → Option Bytes
unfolding is_hashes
find_bad_header [] = none
find_bad_header ((h, name) ∷ hs) = if is_hashes h then find_bad_header hs else some h

unfoldable pub new_md_splitter : Option MdSplitterConfig → SplitterError ⊎ MdSplitter
unfolding find_bad_header
new_md_splitter none = inl nil_config
new_md_splitter (some config) =
    if length config.headers == 0 then inl no_headers else elim (find_bad_header config.headers) [
      | some h ↦ inl (bad_header h)
      | none ↦ inr (record { headers = config.headers; trim_headers = config.trim_headers })
    ]

abbrev pub code_fence_backtick : Bytes
code_fence_backtick = codes "```"

abbrev pub code_fence_tilde : Bytes
code_fence_tilde = codes "~~~"

-- The variables of `Split`. `recorded_meta_list` has its last element in front.
pub record SplitState : Type 0 where
  pub recorded_meta_list : List MetaRecord
  pub recorded_meta_map : StringMap
  pub current_lines : List Bytes
  pub in_code_block : Bool
  pub opening_fence : Bytes
  pub chunks : List MdSplitterChunk

abbrev pub newline : Bytes
newline = codes "\n"

-- `currentLines = append(currentLines, line)`.
unfoldable pub add_line : Bytes → SplitState → SplitState
add_line line st = record st { current_lines = st.current_lines ++ line ∷ [] }

-- Whether a line stands in a code block, and the fence that the block was opened by.
unfoldable pub track_fence : Bytes → SplitState → SplitState
track_fence trimmed st =
    if st.in_code_block
    then (if has_prefix trimmed st.opening_fence
        then record st { in_code_block = false; opening_fence = [] }
        else st)
    else if has_prefix trimmed code_fence_backtick && count trimmed code_fence_backtick == 1
    then record st { in_code_block = true; opening_fence = code_fence_backtick }
    else if has_prefix trimmed code_fence_tilde
    then record st { in_code_block = true; opening_fence = code_fence_tilde }
    else st

-- The byte behind the header is a space, or there is none.
unfoldable pub ends_header : Bytes → Bool
ends_header [] = true
ends_header (c ∷ s) = c == 32

unfoldable pub is_header_line : Bytes → Bytes → Bool
unfolding ends_header
is_header_line trimmed header =
    has_prefix trimmed header && ends_header (drop (length header) trimmed)

unfoldable pub find_header : StringMap → Bytes → Option (Bytes × Bytes)
unfolding is_header_line
find_header [] trimmed = none
find_header ((header, name) ∷ hs) trimmed =
    if is_header_line trimmed header then some (header, name) else find_header hs trimmed

-- `if len(currentLines) > 0 { chunks = append(chunks, …) }`; the caller resets the lines.
unfoldable pub emit : SplitState → List MdSplitterChunk
emit st = elim st.current_lines [
  | [] ↦ st.chunks
  | line ∷ lines ↦
      st.chunks
      ++ record { content = join (line ∷ lines) newline; metadata = st.recorded_meta_map } ∷ []
]

-- The loop that takes headers of the new level or a deeper one off the list and the map.
unfoldable pub pop_records : ℕ → List MetaRecord → StringMap → List MetaRecord × StringMap
unfolding delete
pop_records new_level [] m = ([], m)
pop_records new_level (r ∷ rs) m =
    let popped = pop_records new_level rs (delete r.name m) in
    if leb new_level r.level then popped else (r ∷ rs, m)

unfoldable pub start_section : MdSplitter → Bytes → Bytes → Bytes → Bytes → SplitState → SplitState
start_section s line trimmed header name st =
    let new_level = length header in
    let (rs, m) = pop_records new_level st.recorded_meta_list st.recorded_meta_map in
    let header_data = trim_space (drop new_level trimmed) in
    record st {
      recorded_meta_list = record { name = name; level = new_level; heading = header_data } ∷ rs;
      recorded_meta_map = insert name header_data m;
      current_lines = if s.trim_headers then [] else line ∷ [];
      chunks = emit st;
    }

-- A line outside code blocks, with the header that was found for it.
unfoldable pub place_line :
    MdSplitter → Bytes → Bytes → Option (Bytes × Bytes) → SplitState → SplitState
place_line s line trimmed none st = add_line line st
place_line s line trimmed (some (header, name)) st = start_section s line trimmed header name st

unfoldable pub step_line : MdSplitter → SplitState → Bytes → SplitState
step_line s st line =
    let trimmed = trim_space line in
    let st' = track_fence trimmed st in
    if length line == 0
    then add_line line st
    else if st'.in_code_block
    then add_line line st'
    else place_line s line trimmed (find_header s.headers trimmed) st'

unfoldable pub split_lines : MdSplitter → SplitState → List Bytes → SplitState
split_lines s st [] = st
split_lines s st (line ∷ lines) = split_lines s (step_line s st line) lines

abbrev pub initial : SplitState
initial = record {
  recorded_meta_list = [];
  recorded_meta_map = [];
  current_lines = [];
  in_code_block = false;
  opening_fence = [];
  chunks = [];
}

-- `mdSplitter.Split`.
unfoldable pub split_md : MdSplitter → Bytes → List MdSplitterChunk
split_md s text = emit (split_lines s initial (split text newline))
