-- ===== src/Processor/Jobs.antt =====
-- The goroutines of processor.go, and `DeleteFile`.
use fileprocessor.Base.{
  ◌⊎◌, inl, inr, Bool, ◌&&◌, Option, none, some, ◌++◌, ltb, ◌==◌, if◌then◌else◌, Bytes, codes,
  length,
}
use fileprocessor.Text.{trim_space}
use fileprocessor.Storage.{safe_delete}
use fileprocessor.Ingestion.{RagProcessor, RagProcessRequest, IngestError, delete_file_vectors}
use fileprocessor.Ingestion
use fileprocessor.Processor.{StoredFile, Processor, Host}
use fileprocessor.Processor.Enrich.{Enrichment, choose_text, extract_text_with_tesseract, or_empty}
use fileprocessor.Processor.Run.{Job, DeleteError}

-- The markdown that a text becomes, under the name of its kind.
unfoldable pub enrichment_markdown : Bytes × Bytes → Bytes
enrichment_markdown (content_type, content) =
    codes "\n\n### " ++ (content_type ++ (codes "\n\n" ++ content))

-- The run of the pipeline over the document of an image, whose error is only logged.
unfoldable pub rerun_rag :
    {W E V : Type 0} → Bool → Option (RagProcessor W E V) → RagProcessRequest → W → W
rerun_rag enable_rag none req w = w
rerun_rag enable_rag (some rag) req w =
    if enable_rag then (Ingestion.process_file rag req w).1 else w

-- What follows the append to the document.
unfoldable pub after_append :
    {W E V : Type 0} → Bool → Option (RagProcessor W E V) → RagProcessRequest → Option E × W → W
after_append enable_rag rag req (some err, w) = w
after_append enable_rag rag req (none, w) = rerun_rag enable_rag rag req w

-- The two forms of the last steps of `DeleteFile`: with the copy on disk, and without.
unfoldable pub delete_copy : {W E T : Type 0} → Host W E T → Bytes → Bytes → W → W
delete_copy host url base_dir w =
    if ltb 0 (length base_dir) && ltb 0 (length url)
    then (safe_delete host.fs url base_dir w).1
    else w

unfoldable pub delete_vectors : {W E V : Type 0} → Option (RagProcessor W E V) → Bytes → W → W
delete_vectors none file_id w = w
delete_vectors (some rag) file_id w = (delete_file_vectors rag file_id w).1

module _ {W E V : Type 0} (p : Processor W E V) where
  -- What is done with the text that was chosen.
  unfoldable pub append_text : Bool → RagProcessRequest → Enrichment × W → W
  append_text enable_rag req (none, w) = w
  append_text enable_rag req (some (content_type, content), w) =
      if length content == 0
      then w
      else after_append enable_rag p.rag req (
          p.file_store.append_to_document req.file_id (enrichment_markdown (content_type, content))
            w)

-- The text of an image, trimmed; it is empty if it cannot be read.
unfoldable pub ocr_text : {W E T : Type 0} → Host W E T → Bytes → W → Bytes
ocr_text host path w = trim_space (or_empty (extract_text_with_tesseract host path w))

module _ {W E V T : Type 0} (host : Host W E T) (p : Processor W E V) where
  -- `processImageDescriptionAsync` and `processVideoDescriptionAsync`.
  unfoldable pub run_job : Job → W → W
  run_job (Job.image_job path filename document_id file_id enable_rag) w =
      append_text p enable_rag
        (record { file_id = file_id; document_id = document_id; filename = filename })
        (choose_text p (ocr_text host path w) path filename w)
  run_job (Job.video_job path filename document_id file_id enable_rag) w = w

  unfoldable pub after_delete : StoredFile → Option E × W → Option (DeleteError E) × W
  after_delete stored (some err, w) = (some (DeleteError.delete_file_failed err), w)
  after_delete stored (none, w) = (none, delete_copy host stored.url p.file_base_dir w)

  -- `DeleteFile`, once the store has answered for the file.
  unfoldable pub delete_stored : Bytes → (E ⊎ StoredFile) × W → Option (DeleteError E) × W
  delete_stored file_id (inl err, w) =
      (if p.file_store.is_not_found err then none else some (DeleteError.get_file_failed err), w)
  delete_stored file_id (inr stored, w) =
      after_delete stored (p.file_store.delete_file file_id (delete_vectors p.rag file_id w))

  -- `DeleteFile`.
  unfoldable pub delete_file : Bytes → W → Option (DeleteError E) × W
  delete_file file_id w = delete_stored file_id (p.file_store.get_file file_id w)
