-- ===== src/Loader.antt =====
-- loader.go: the type of a file by its extension, and what a loader reads files with.
pub mod Content
pub mod Load
pub mod Agree
pub mod Pages
pub mod Fence
use fileprocessor.Base.{
  ℕ, ◌⊎◌, inl, inr, Bool, true, false, ◌||◌, not, List, [], ◌∷◌, map, ◌==◌, if◌then◌else◌, Bytes,
  codes, bytes_eq, length,
}
use fileprocessor.Text.{has_prefix}
use fileprocessor.Paths.{is_member, to_lower, trim_dot, ext}

pub data SupportedFileType : Type 0 where
  file_type_txt : SupportedFileType
  file_type_pdf : SupportedFileType
  file_type_doc : SupportedFileType
  file_type_docx : SupportedFileType
  file_type_xls : SupportedFileType
  file_type_xlsx : SupportedFileType
  file_type_pptx : SupportedFileType
  file_type_image : SupportedFileType
  file_type_video : SupportedFileType
  file_type_markdown : SupportedFileType

abbrev pub text_extensions : List Bytes
text_extensions = map codes (
    "txt" ∷ "md" ∷ "markdown" ∷ "json" ∷ "xml" ∷ "html" ∷ "htm" ∷ "css" ∷ "js" ∷ "ts" ∷ "py"
    ∷ "java" ∷ "cpp" ∷ "c" ∷ "h" ∷ "hpp" ∷ "cs" ∷ "php" ∷ "rb" ∷ "go" ∷ "rs" ∷ "sh" ∷ "yml" ∷ "yaml"
    ∷ "toml" ∷ "ini" ∷ "cfg" ∷ "conf" ∷ "log" ∷ "csv" ∷ "tsv" ∷ [])

abbrev pub image_extensions : List Bytes
image_extensions = map codes ("jpg" ∷ "jpeg" ∷ "png" ∷ "gif" ∷ "webp" ∷ "svg" ∷ "bmp" ∷ "tiff" ∷ [])

abbrev pub video_extensions : List Bytes
video_extensions =
    map codes
      ("mp4" ∷ "mkv" ∷ "avi" ∷ "mov" ∷ "wmv" ∷ "flv" ∷ "webm" ∷ "m4v" ∷ "mpeg" ∷ "mpg" ∷ "3gp" ∷ [])

-- `normalizeExt`.
unfoldable pub normalize_ext : Bytes → Bytes
normalize_ext e = to_lower (trim_dot e)

unfoldable pub is_image_file : Bytes → Bool
unfolding is_member normalize_ext
is_image_file e = is_member (normalize_ext e) image_extensions

unfoldable pub is_video_file : Bytes → Bool
unfolding is_member normalize_ext
is_video_file e = is_member (normalize_ext e) video_extensions

unfoldable is_text_readable_file : Bytes → Bool
unfolding is_member normalize_ext
is_text_readable_file e = is_member (normalize_ext e) text_extensions

abbrev archive_types : List Bytes
archive_types = map codes (
    "application/octet-stream" ∷ "application/zip" ∷ "application/x-rar"
    ∷ "application/x-7z-compressed" ∷ "application/x-tar" ∷ "application/gzip"
    ∷ "application/x-bzip2" ∷ "application/x-xz" ∷ [])

-- `CanChunkForRAG`, of an extension that is normalized.
unfoldable pub can_chunk : Bytes → Bool
unfolding is_member
can_chunk e =
    if has_prefix e (codes "video/") || has_prefix e (codes "audio/")
    then false
    else if bytes_eq e (codes "image/")
    then true
    else not (is_member e archive_types)

unfoldable pub can_chunk_for_rag : Bytes → Bool
unfolding can_chunk
can_chunk_for_rag e = can_chunk (normalize_ext e)

pub data OfficeFormat : Type 0 where
  docx : OfficeFormat
  xlsx : OfficeFormat
  pptx : OfficeFormat

pub data LoadError (E : Type 0) : Type 0 where
  stat_failed : E → LoadError E
  unsupported_file_type : Bytes → LoadError E
  read_failed : E → LoadError E
  open_failed : E → LoadError E
  create_pdf_reader_failed : E → LoadError E
  get_num_pages_failed : E → LoadError E
  get_page_failed : ℕ → E → LoadError E
  create_extractor_failed : ℕ → E → LoadError E
  extract_page_failed : ℕ → E → LoadError E
  convert_failed : OfficeFormat → E → LoadError E
  unwrapped : E → LoadError E
  empty_file_content : LoadError E

-- `detectFileType`, of the extension.
unfoldable pub type_of_ext : {E : Type 0} → Bytes → LoadError E ⊎ SupportedFileType
unfolding is_member
type_of_ext e =
    if bytes_eq e (codes "pdf")
    then inr file_type_pdf
    else if bytes_eq e (codes "doc")
    then inr file_type_doc
    else if bytes_eq e (codes "docx")
    then inr file_type_docx
    else if bytes_eq e (codes "xlsx") || bytes_eq e (codes "xls")
    then inr file_type_xlsx
    else if bytes_eq e (codes "pptx")
    then inr file_type_pptx
    else if bytes_eq e (codes "txt") || length e == 0
    then inr file_type_txt
    else if bytes_eq e (codes "md") || bytes_eq e (codes "markdown")
    then inr file_type_markdown
    else if is_member e text_extensions
    then inr file_type_txt
    else if is_image_file e
    then inr file_type_image
    else if is_video_file e
    then inr file_type_video
    else inl (unsupported_file_type e)

unfoldable pub detect_file_type : {E : Type 0} → Bytes → LoadError E ⊎ SupportedFileType
detect_file_type path = type_of_ext (normalize_ext (ext path))

-- The third-party readers. A page of a PDF is opened, and its text extracted.
pub record PdfReader (E : Type 0) : Type 0 where
  pub get_num_pages : E ⊎ ℕ
  pub get_page : ℕ → E ⊎ (E ⊎ (E ⊎ Bytes))

-- A document of an office package, by what its conversion to markdown gives for an image address.
abbrev pub OfficeDocument : Type 0 → Type 0
OfficeDocument E = Bytes → E ⊎ Bytes

-- What a loader calls: the file system as it stands during the call (`open_pdf` gives what is read
-- from the opened file), and the packages that read
-- the formats. `T` is the type of times, and `is_zero` tells the zero time.
pub record Readers (E T : Type 0) : Type 0 where
  pub stat : Bytes → E ⊎ T
  pub is_zero : T → Bool
  pub read_file : Bytes → E ⊎ Bytes
  pub new_pdf_reader : Bytes → E ⊎ PdfReader E
  pub read_office : OfficeFormat → Bytes → E ⊎ OfficeDocument E
  pub open_pdf : Bytes → E ⊎ Bytes
  pub open_office : OfficeFormat → Bytes → E ⊎ OfficeDocument E
