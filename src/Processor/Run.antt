-- ===== src/Processor/Run.antt =====
-- `ProcessFile` and `DeleteFile` of processor.go, and the work they leave to the background.
use fileprocessor.Base.{
  ℕ, ◌⊎◌, inl, inr, Bool, true, false, ◌&&◌, Option, none, some, List, [], ◌∷◌, ◌==◌, if◌then◌else◌,
  Bytes, codes, length, fail_as, and_then, try_then,
}
use fileprocessor.Paths.{base_name}
use fileprocessor.Storage.{StorageError, calculate_file_hash, get_file_info}
use fileprocessor.Loader.{LoadError, is_image_file, is_video_file, can_chunk_for_rag}
use fileprocessor.Loader.Load.{FileDocument, load_file}
use fileprocessor.Processor.{JsonValue, Processor, FileRecord, DocumentRecord, Host}
use fileprocessor.Processor.Rag.{run_rag}
use fileprocessor.Processor.Enrich.{or_empty}

pub record Request : Type 0 where
  pub file_path : Bytes
  pub filename : Bytes
  pub source : Bytes
  pub enable_rag : Bool
  pub is_shared : Bool
  pub file_id : Bytes

pub record Response : Type 0 where
  pub file_id : Bytes
  pub document_id : Bytes
  pub chunk_ids : List Bytes
  pub processing : Bool
  pub detected_file_type : Bytes

pub data ProcessError (E : Type 0) : Type 0 where
  file_path_required : ProcessError E
  load_failed : LoadError E → ProcessError E
  file_info_failed : StorageError E → ProcessError E
  save_file_failed : E → ProcessError E
  save_document_failed : E → ProcessError E

pub data DeleteError (E : Type 0) : Type 0 where
  get_file_failed : E → DeleteError E
  delete_file_failed : E → DeleteError E

-- A goroutine that `ProcessFile` starts, with its arguments.
pub data Job : Type 0 where
  image_job : (file_path filename document_id file_id : Bytes) (enable_rag : Bool) → Job
  video_job : (file_path filename document_id file_id : Bytes) (enable_rag : Bool) → Job

unfoldable pub or_base_name : Request → Bytes
or_base_name req = if length req.filename == 0 then base_name req.file_path else req.filename

module _ {W E T : Type 0} where
  -- `saveFileMetadata`. The hash is empty if it is not asked for or cannot be computed.
  unfoldable pub request_hash : Host W E T → Request → W → Bytes
  request_hash host req w =
      if req.is_shared then or_empty (calculate_file_hash host.fs req.file_path w) else []

  unfoldable pub file_record : Host W E T → Request → Bytes → Bytes → ℕ → W → FileRecord
  file_record host req file_type filename size w = record {
    id = req.file_id;
    name = filename;
    file_type = file_type;
    size = size;
    url = req.file_path;
    source = req.source;
    hash = request_hash host req w;
    metadata = none;
  }

  unfoldable pub document_record : Host W E T → FileDocument T → Bytes → Bytes → DocumentRecord
  document_record host doc file_id filename = record {
    id = [];
    file_id = file_id;
    title = filename;
    content = doc.content;
    file_type = doc.file_type;
    filename = filename;
    total_char_count = doc.total_char_count;
    total_line_count = doc.total_line_count;
    pages_json = host.encode_pages doc.pages;
    source = [];
    source_type = [];
    metadata = some ((codes "raw", JsonValue.json_text (host.encode_metadata doc.metadata)) ∷ []);
  }

module _ {W E T : Type 0} where
  -- The loaded file and its size, or why the request fails before anything is stored.
  unfoldable pub load_request : Host W E T → Request → W → ProcessError E ⊎ (FileDocument T × ℕ)
  load_request host req w =
      if length req.file_path == 0
      then inl file_path_required
      else and_then (fail_as load_failed (load_file (host.readers w) req.file_path none)) (λ doc.
        and_then (fail_as file_info_failed (get_file_info host.fs req.file_path w))
          (λ size. inr (doc, size)))

-- What `ProcessFile` returns, the goroutine it has started, if any, and the state.
abbrev pub Result : Type 0 → Type 0 → Type 0
Result W E = (ProcessError E ⊎ (Response × Option Job)) × W

-- The chunks of a run of the pipeline, none if it failed.
unfoldable pub or_no_chunks : {W F : Type 0} → (F ⊎ List Bytes) × W → List Bytes × W
or_no_chunks (inl err, w) = ([], w)
or_no_chunks (inr ids, w) = (ids, w)

unfoldable pub respond : Bytes → Bytes → Bytes → List Bytes → Bool → Response
respond file_type file_id document_id chunk_ids processing = record {
  file_id = file_id;
  document_id = document_id;
  chunk_ids = chunk_ids;
  processing = processing;
  detected_file_type = file_type;
}

-- The response, by the chunks of the synchronous run.
unfoldable pub respond_with : {W E : Type 0} → Bytes → Bytes → Bytes → List Bytes × W → Result W E
respond_with file_type file_id document_id (ids, w) =
    (inr (respond file_type file_id document_id ids false, none), w)

unfoldable pub respond_later : {W E : Type 0} → Bytes → Bytes → Bytes → Job → W → Result W E
respond_later file_type file_id document_id job w =
    (inr (respond file_type file_id document_id [] true, some job), w)

module _ {W E V T : Type 0} (host : Host W E T) (p : Processor W E V) where
  -- The switch over the type of the file.
  unfoldable pub dispatch : Request → FileDocument T → Bytes → Bytes → Bytes → W → Result W E
  dispatch req doc filename file_id document_id w =
      if is_image_file doc.file_type
      then respond_later doc.file_type file_id document_id
          (image_job req.file_path filename document_id file_id req.enable_rag) w
      else if is_video_file doc.file_type
      then respond_later doc.file_type file_id document_id
          (video_job req.file_path filename document_id file_id req.enable_rag) w
      else if req.enable_rag && can_chunk_for_rag doc.file_type
      then respond_with doc.file_type file_id document_id (
          or_no_chunks (
            run_rag p.file_store p.rag p.chunker
              (record { file_id = file_id; document_id = document_id; filename = filename })
              doc.content w))
      else respond_with doc.file_type file_id document_id ([], w)

  -- What follows the loading of the file.
  unfoldable pub save_loaded : Request → Bytes → W → FileDocument T → ℕ → Result W E
  save_loaded req filename w doc size =
      try_then save_file_failed
        (p.file_store.create_file (file_record host req doc.file_type filename size w) w)
        (λ file_id w1.
          try_then save_document_failed
            (p.file_store.create_document (document_record host doc file_id filename) w1)
            (λ document_id w2. dispatch req doc filename file_id document_id w2))

  -- `ProcessFile`.
  unfoldable pub process_file : Request → W → Result W E
  process_file req w =
      try_then (λ err. err) (load_request host req w, w)
        (λ loaded w'. save_loaded req (or_base_name req) w' loaded.0 loaded.1)
