-- ===== src/Loader/Agree.antt =====
-- Loading a file from its path, and from its bytes.
use fileprocessor.Base.{
  ℕ, zero, suc, ◌+◌, ◌<◌, ◌≡◌, refl, sym, ap, ◌∙◌, ◌⊎◌, inl, inr, Bool, false, ◌||◌, none, List,
  arith, ◌==◌, if◌then◌else◌, if_ind, Bytes, codes, bytes_eq, length, fail_as, and_then,
  result-cases,
}
use fileprocessor.Paths.{is_member, ext}
use fileprocessor.Loader.{
  is_image_file, is_video_file, text_extensions, normalize_ext, PdfReader, OfficeDocument,
  type_of_ext, SupportedFileType, OfficeFormat, Readers, LoadError, detect_file_type,
}
use fileprocessor.Loader.Content.{
  DocumentPage, Loaded, office_document, page_text, extract_loop, extract_pdf_pages, load_pdf_bytes,
}
use fileprocessor.Loader.Load.{
  FileDocument, make_file_document, merge_metadata, load_text_file, load_pdf_file, load_content,
  load_file, bytes_content, make_bytes_document, load_bytes,
}

-- What both ways of loading fill in: the content, the type, the name and the pages.
abbrev pub Common : Type 0
Common = Bytes × (Bytes × (Bytes × List DocumentPage))

abbrev pub common : {T : Type 0} → FileDocument T → Common
common d = (d.content, (d.file_type, (d.filename, d.pages)))

abbrev pub outcome : {E T : Type 0} → LoadError E ⊎ FileDocument T → LoadError E ⊎ Common
outcome result = and_then result (λ d. inr (common d))

-- An error without the words that `LoadFile` puts in front of that of a conversion.
unfoldable pub plain_error : {E : Type 0} → LoadError E → LoadError E
plain_error (LoadError.convert_failed format err) = LoadError.unwrapped err
plain_error (LoadError.stat_failed err) = LoadError.stat_failed err
plain_error (LoadError.unsupported_file_type e) = LoadError.unsupported_file_type e
plain_error (LoadError.read_failed err) = LoadError.read_failed err
plain_error (LoadError.open_failed err) = LoadError.open_failed err
plain_error (LoadError.create_pdf_reader_failed err) = LoadError.create_pdf_reader_failed err
plain_error (LoadError.get_num_pages_failed err) = LoadError.get_num_pages_failed err
plain_error (LoadError.get_page_failed i err) = LoadError.get_page_failed i err
plain_error (LoadError.create_extractor_failed i err) = LoadError.create_extractor_failed i err
plain_error (LoadError.extract_page_failed i err) = LoadError.extract_page_failed i err
plain_error (LoadError.unwrapped err) = LoadError.unwrapped err
plain_error LoadError.empty_file_content = LoadError.empty_file_content

-- The file at a path can be read, and has these bytes; an office package reads the same from both.
pub record Holds {E T : Type 0} (readers : Readers E T) (path content : Bytes) : Type 0 where
  pub mod_time : T
  pub stat : readers.stat path ≡ inr mod_time
  pub read_file : readers.read_file path ≡ inr content
  pub open_pdf : readers.open_pdf path ≡ inr content
  pub open_office : (f : OfficeFormat) → readers.open_office f path ≡ readers.read_office f content

module _ {E : Type 0} where
  -- An error of this result is not one of a conversion.
  abbrev IsPlain : {A : Type 0} → LoadError E ⊎ A → Type 0
  IsPlain r = fail_as plain_error r ≡ r

  fail_as-IsPlain :
      {A : Type 0} (wrap : E → LoadError E) (r : E ⊎ A)
      → ((err : E) → plain_error (wrap err) ≡ wrap err)
      → IsPlain (fail_as wrap r)
  unfolding fail_as
  fail_as-IsPlain wrap (inl err) h = ap inl (h err)
  fail_as-IsPlain wrap (inr a) h = refl

  and_then-IsPlain :
      {A B : Type 0} (r : LoadError E ⊎ A) (f : A → LoadError E ⊎ B)
      → IsPlain r
      → ((a : A) → IsPlain (f a))
      → IsPlain (and_then r f)
  unfolding fail_as and_then
  and_then-IsPlain (inl err) f h k = let same : plain_error err ≡ err = cc in ap inl same
  and_then-IsPlain (inr a) f h k = k a

  inr-IsPlain : {A : Type 0} (a : A) → IsPlain (inr a)
  unfolding fail_as
  inr-IsPlain a = refl

  or-IsPlain :
      {A : Type 0} (b : Bool) (a : A) {r : LoadError E ⊎ A}
      → IsPlain r
      → IsPlain (if b then inr a else r)
  or-IsPlain b a {r} h = if_ind IsPlain b {x = inr a} {y = r} (λ _. inr-IsPlain a) (λ _. h)

  unsupported-IsPlain :
      {A : Type 0} (e : Bytes) → IsPlain {A = A} (inl (LoadError.unsupported_file_type e))
  unfolding fail_as plain_error
  unsupported-IsPlain e = refl

  type_of_ext-IsPlain : (e : Bytes) → IsPlain {A = SupportedFileType} (type_of_ext e)
  unfolding type_of_ext
  type_of_ext-IsPlain e = or-IsPlain (bytes_eq e (codes "pdf")) SupportedFileType.file_type_pdf (
      or-IsPlain (bytes_eq e (codes "doc")) SupportedFileType.file_type_doc (
        or-IsPlain (bytes_eq e (codes "docx")) SupportedFileType.file_type_docx (
          or-IsPlain (bytes_eq e (codes "xlsx") || bytes_eq e (codes "xls"))
            SupportedFileType.file_type_xlsx
            (or-IsPlain (bytes_eq e (codes "pptx")) SupportedFileType.file_type_pptx (
              or-IsPlain (bytes_eq e (codes "txt") || length e == 0) SupportedFileType.file_type_txt
                (or-IsPlain (bytes_eq e (codes "md") || bytes_eq e (codes "markdown"))
                  SupportedFileType.file_type_markdown
                  (or-IsPlain (is_member e text_extensions) SupportedFileType.file_type_txt (
                    or-IsPlain (is_image_file e) SupportedFileType.file_type_image (
                      or-IsPlain (is_video_file e) SupportedFileType.file_type_video
                        (unsupported-IsPlain e))))))))))

  detect_file_type-IsPlain :
      (path : Bytes) → IsPlain {A = SupportedFileType} (detect_file_type path)
  unfolding detect_file_type
  detect_file_type-IsPlain path = type_of_ext-IsPlain (normalize_ext (ext path))

  page_text-IsPlain : (reader : PdfReader E) (i : ℕ) → IsPlain (page_text reader i)
  unfolding page_text plain_error
  page_text-IsPlain reader i =
      and_then-IsPlain _ _ (fail_as-IsPlain _ (reader.get_page i) (λ err. refl)) (λ page.
        and_then-IsPlain _ _ (fail_as-IsPlain _ page (λ err. refl))
          (λ extracted. fail_as-IsPlain _ extracted (λ err. refl)))

  extract_loop-IsPlain : (reader : PdfReader E) (i n : ℕ) → IsPlain (extract_loop reader i n)
  unfolding extract_loop
  extract_loop-IsPlain reader i zero = unfold fail_as in refl
  extract_loop-IsPlain reader i (suc n) =
      and_then-IsPlain _ _ (page_text-IsPlain reader i) (λ text.
        and_then-IsPlain _ _ (extract_loop-IsPlain reader (i + 1) n) (λ more. inr-IsPlain _))

  load_pdf_bytes-IsPlain :
      {T : Type 0} (readers : Readers E T) (content : Bytes)
      → IsPlain (load_pdf_bytes readers content)
  unfolding load_pdf_bytes extract_pdf_pages plain_error
  load_pdf_bytes-IsPlain readers content =
      and_then-IsPlain _ _ (fail_as-IsPlain _ (readers.new_pdf_reader content) (λ err. refl))
        (λ reader.
          and_then-IsPlain _ _ (fail_as-IsPlain _ reader.get_num_pages (λ err. refl))
            (λ n. and_then-IsPlain _ _ (extract_loop-IsPlain reader 1 n) (λ found. inr-IsPlain _)))

  office_document-plain_error :
      (format : OfficeFormat) (opened : E ⊎ OfficeDocument E)
      → office_document LoadError.unwrapped format opened
        ≡ fail_as plain_error (office_document (LoadError.convert_failed format) format opened)
  unfolding office_document fail_as and_then plain_error
  office_document-plain_error format (inl err) = refl
  office_document-plain_error format (inr to_markdown) =
      elim (result-cases (to_markdown (codes "/files"))) [
        | inl (err, failed) ↦ rw failed refl
        | inr (markdown, done) ↦ rw done refl
      ]

module _ {E T : Type 0} (readers : Readers E T) (path content : Bytes) where
  bytes_content-load_content :
      Holds readers path content
      → (t : SupportedFileType)
      → bytes_content readers path content t ≡ fail_as plain_error (load_content readers path t)
  unfolding bytes_content load_content load_text_file load_pdf_file and_then fail_as plain_error
  bytes_content-load_content h SupportedFileType.file_type_txt = rw h.read_file refl
  bytes_content-load_content h SupportedFileType.file_type_markdown = rw h.read_file refl
  bytes_content-load_content h SupportedFileType.file_type_pdf =
      rw h.open_pdf (sym (load_pdf_bytes-IsPlain readers content))
  bytes_content-load_content h SupportedFileType.file_type_docx =
      rw (h.open_office OfficeFormat.docx) (office_document-plain_error OfficeFormat.docx _)
  bytes_content-load_content h SupportedFileType.file_type_xlsx =
      rw (h.open_office OfficeFormat.xlsx) (office_document-plain_error OfficeFormat.xlsx _)
  bytes_content-load_content h SupportedFileType.file_type_pptx =
      rw (h.open_office OfficeFormat.pptx) (office_document-plain_error OfficeFormat.pptx _)
  bytes_content-load_content h SupportedFileType.file_type_image = refl
  bytes_content-load_content h SupportedFileType.file_type_video = refl
  bytes_content-load_content h SupportedFileType.file_type_doc = refl
  bytes_content-load_content h SupportedFileType.file_type_xls = refl

  -- The last step of the two.
  made :
      (zero_time mod_time : T) (loaded : LoadError E ⊎ Loaded)
      → outcome (
          and_then
            (fail_as plain_error loaded)
            (λ l. inr (make_bytes_document readers zero_time path l)))
        ≡ fail_as plain_error (
            outcome (
              and_then loaded (λ l.
                inr (make_file_document readers (merge_metadata readers path mod_time none) l))))
  unfolding and_then fail_as make_bytes_document make_file_document merge_metadata
  made zero_time mod_time (inl err) = refl
  made zero_time mod_time (inr l) = refl

  detected :
      Holds readers path content
      → (zero_time mod_time : T) (t : LoadError E ⊎ SupportedFileType) → IsPlain t
      → outcome (
          and_then t (λ file_type.
            and_then
              (bytes_content readers path content file_type)
              (λ l. inr (make_bytes_document readers zero_time path l))))
        ≡ fail_as plain_error (
            outcome (
              and_then t (λ file_type. and_then (load_content readers path file_type) (λ l.
                inr (make_file_document readers (merge_metadata readers path mod_time none) l)))))
  unfolding and_then fail_as
  detected h zero_time mod_time (inl err) plain =
      let same : plain_error err ≡ err = cc in ap inl (sym same)
  detected h zero_time mod_time (inr t) plain =
      rw (bytes_content-load_content h t) (made zero_time mod_time (load_content readers path t))

  -- For a file that can be read and is not empty, `LoadBytes` of its bytes under the name of its
  -- path gives what `LoadFile` of the path gives: the same content, type, name and pages, or the
  -- same error, but that `LoadFile` names the format in front of the error of a failed conversion
  -- to markdown and `LoadBytes` does not. This supposes that an office package reads the same from
  -- a path and from bytes.
  pub load_bytes-load_file :
      (zero_time : T)
      → Holds readers path content
      → 0 < length content
      → outcome (load_bytes readers zero_time path content)
        ≡ fail_as plain_error (outcome (load_file readers path none))
  unfolding load_bytes load_file
  load_bytes-load_file zero_time h some_bytes =
      let not_empty : length content == 0 ≡ false = ground (arith, some_bytes) in
      rw not_empty (
        detected h zero_time h.mod_time (detect_file_type path) (detect_file_type-IsPlain path)
        ∙ ap (fail_as plain_error) (sym (rw h.stat (unfold and_then fail_as in refl))))
