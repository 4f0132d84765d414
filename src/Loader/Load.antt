-- ===== src/Loader/Load.antt =====
-- `LoadFile` of loader.go, `loadContent` of loader_text.go and `LoadBytes` of loader_bytes.go.
use fileprocessor.Base.{
  ℕ, ◌+◌, ◌⊎◌, inl, inr, Option, none, some, List, [], ◌∷◌, ◌==◌, if◌then◌else◌, Bytes, codes,
  length, fail_as, and_then,
}
use fileprocessor.Paths.{base_name, ext}
use fileprocessor.Loader.{
  SupportedFileType, OfficeFormat, Readers, LoadError, normalize_ext, detect_file_type,
}
use fileprocessor.Loader.Content.{
  DocumentPage, Loaded, text_content, image_content, video_content, load_pdf_bytes, office_document,
}

pub record FileMetadata (T : Type 0) : Type 0 where
  pub source : Bytes
  pub filename : Bytes
  pub file_type : Bytes
  pub created_time : T
  pub modified_time : T

pub record FileDocument (T : Type 0) : Type 0 where
  pub content : Bytes
  pub created_time : T
  pub file_type : Bytes
  pub filename : Bytes
  pub pages : List DocumentPage
  pub source : Bytes
  pub total_char_count : ℕ
  pub total_line_count : ℕ
  pub metadata : FileMetadata T

-- The sums over the pages.
unfoldable pub total_chars : List DocumentPage → ℕ
total_chars [] = 0
total_chars (p ∷ ps) = p.char_count + total_chars ps

unfoldable pub total_lines : List DocumentPage → ℕ
total_lines [] = 0
total_lines (p ∷ ps) = p.line_count + total_lines ps

-- A text of the caller's metadata, or the one inferred if that is empty.
unfoldable pub or_inferred : Bytes → Bytes → Bytes
or_inferred given inferred = if length given == 0 then inferred else given

module _ {E T : Type 0} (readers : Readers E T) where
  -- The same for a time.
  unfoldable pub or_stat : T → T → T
  or_stat given mod_time = if readers.is_zero given then mod_time else given

  -- The metadata of a document, by the caller's.
  unfoldable pub merge_metadata : Bytes → T → Option (FileMetadata T) → FileMetadata T
  unfolding normalize_ext
  merge_metadata path mod_time none = record {
    source = path;
    filename = base_name path;
    file_type = normalize_ext (ext path);
    created_time = mod_time;
    modified_time = mod_time;
  }
  merge_metadata path mod_time (some m) = record {
    source = or_inferred m.source path;
    filename = or_inferred m.filename (base_name path);
    file_type = normalize_ext (ext path);
    created_time = or_stat m.created_time mod_time;
    modified_time = or_stat m.modified_time mod_time;
  }

  unfoldable pub load_text_file : Bytes → LoadError E ⊎ Loaded
  load_text_file path =
      and_then (fail_as LoadError.read_failed (readers.read_file path))
        (λ text. inr (text_content text))

  unfoldable pub load_pdf_file : Bytes → LoadError E ⊎ Loaded
  load_pdf_file path =
      and_then (fail_as LoadError.open_failed (readers.open_pdf path))
        (λ file. load_pdf_bytes readers file)

  -- `loadContent`.
  unfoldable pub load_content : Bytes → SupportedFileType → LoadError E ⊎ Loaded
  load_content path SupportedFileType.file_type_txt = load_text_file path
  load_content path SupportedFileType.file_type_markdown = load_text_file path
  load_content path SupportedFileType.file_type_pdf = load_pdf_file path
  load_content path SupportedFileType.file_type_docx =
      office_document (LoadError.convert_failed OfficeFormat.docx) OfficeFormat.docx
        (readers.open_office OfficeFormat.docx path)
  load_content path SupportedFileType.file_type_xlsx =
      office_document (LoadError.convert_failed OfficeFormat.xlsx) OfficeFormat.xlsx
        (readers.open_office OfficeFormat.xlsx path)
  load_content path SupportedFileType.file_type_pptx =
      office_document (LoadError.convert_failed OfficeFormat.pptx) OfficeFormat.pptx
        (readers.open_office OfficeFormat.pptx path)
  load_content path SupportedFileType.file_type_image = inr (image_content path)
  load_content path SupportedFileType.file_type_video = inr (video_content path)
  load_content path SupportedFileType.file_type_doc =
      inl (LoadError.unsupported_file_type (codes "doc"))
  load_content path SupportedFileType.file_type_xls =
      inl (LoadError.unsupported_file_type (codes "xls"))

  -- The document of a file, by its metadata, pages and content.
  unfoldable pub make_file_document : FileMetadata T → Loaded → FileDocument T
  make_file_document m loaded = record {
    content = loaded.1;
    created_time = m.created_time;
    file_type = m.file_type;
    filename = m.filename;
    pages = loaded.0;
    source = m.source;
    total_char_count = total_chars loaded.0;
    total_line_count = total_lines loaded.0;
    metadata = m;
  }

  -- `LoadFile`.
  unfoldable pub load_file : Bytes → Option (FileMetadata T) → LoadError E ⊎ FileDocument T
  load_file path given = and_then (fail_as LoadError.stat_failed (readers.stat path)) (λ mod_time.
      and_then (detect_file_type path) (λ file_type.
        and_then (load_content path file_type)
          (λ loaded. inr (make_file_document (merge_metadata path mod_time given) loaded))))

  -- The switch of `LoadBytes`, which returns the error of a conversion as it is.
  unfoldable pub bytes_content : Bytes → Bytes → SupportedFileType → LoadError E ⊎ Loaded
  bytes_content filename content SupportedFileType.file_type_txt = inr (text_content content)
  bytes_content filename content SupportedFileType.file_type_markdown = inr (text_content content)
  bytes_content filename content SupportedFileType.file_type_pdf = load_pdf_bytes readers content
  bytes_content filename content SupportedFileType.file_type_docx =
      office_document LoadError.unwrapped OfficeFormat.docx
        (readers.read_office OfficeFormat.docx content)
  bytes_content filename content SupportedFileType.file_type_xlsx =
      office_document LoadError.unwrapped OfficeFormat.xlsx
        (readers.read_office OfficeFormat.xlsx content)
  bytes_content filename content SupportedFileType.file_type_pptx =
      office_document LoadError.unwrapped OfficeFormat.pptx
        (readers.read_office OfficeFormat.pptx content)
  bytes_content filename content SupportedFileType.file_type_image = inr (image_content filename)
  bytes_content filename content SupportedFileType.file_type_video = inr (video_content filename)
  bytes_content filename content SupportedFileType.file_type_doc =
      inl (LoadError.unsupported_file_type (codes "doc"))
  bytes_content filename content SupportedFileType.file_type_xls =
      inl (LoadError.unsupported_file_type (codes "xls"))

  -- The document of bytes, whose other fields are left at their zero values.
  unfoldable pub make_bytes_document : T → Bytes → Loaded → FileDocument T
  unfolding normalize_ext
  make_bytes_document zero_time filename loaded = record {
    content = loaded.1;
    created_time = zero_time;
    file_type = normalize_ext (ext filename);
    filename = base_name filename;
    pages = loaded.0;
    source = [];
    total_char_count = 0;
    total_line_count = 0;
    metadata = record {
      source = [];
      filename = [];
      file_type = [];
      created_time = zero_time;
      modified_time = zero_time;
    };
  }

  -- `LoadBytes`.
  unfoldable pub load_bytes : T → Bytes → Bytes → LoadError E ⊎ FileDocument T
  load_bytes zero_time filename content =
      if length content == 0
      then inl LoadError.empty_file_content
      else and_then (detect_file_type filename) (λ file_type.
        and_then (bytes_content filename content file_type)
          (λ loaded. inr (make_bytes_document zero_time filename loaded)))
