-- ===== src/Processor.antt =====
-- types.go and the wiring of processor.go: the records that a processor passes to its store, its
-- interfaces, and `New`. The stores and the models act on a state of which nothing is known; a call
-- that only reads gives no new state. Logging is left out.
pub mod Rag
pub mod Enrich
pub mod Jobs
pub mod Run
pub mod Keeps
pub mod Outcomes
pub mod Drains
use fileprocessor.Base.{
  ℕ, ◌⊎◌, inl, inr, Bool, Option, none, some, List, if◌then◌else◌, Bytes, ℤ, is_nonpos, pos,
}
use fileprocessor.Storage.{FileSystem}
use fileprocessor.Loader.{Readers}
use fileprocessor.Loader.Content.{DocumentPage}
use fileprocessor.Loader.Load.{FileMetadata}
use fileprocessor.Ingestion.{RagProcessor, UpdateFileStatsParams}

-- A value of a map that is stored as JSON, and such a map; `none` is the nil map.
pub data JsonValue : Type 0 where
  json_text : Bytes → JsonValue
  json_number : ℕ → JsonValue

abbrev pub Metadata : Type 0
Metadata = Option (List (Bytes × JsonValue))

pub record FileRecord : Type 0 where
  pub id : Bytes
  pub name : Bytes
  pub file_type : Bytes
  pub size : ℕ
  pub url : Bytes
  pub source : Bytes
  pub hash : Bytes
  pub metadata : Metadata

pub record DocumentRecord : Type 0 where
  pub id : Bytes
  pub file_id : Bytes
  pub title : Bytes
  pub content : Bytes
  pub file_type : Bytes
  pub filename : Bytes
  pub total_char_count : ℕ
  pub total_line_count : ℕ
  pub pages_json : Bytes
  pub source : Bytes
  pub source_type : Bytes
  pub metadata : Metadata

pub record ChunkRecord : Type 0 where
  pub id : Bytes
  pub file_id : Bytes
  pub document_id : Bytes
  pub text : Bytes
  pub index : ℕ
  pub chunk_type : Bytes
  pub metadata : Metadata

pub record ChunkStats : Type 0 where
  pub chunk_count : ℕ
  pub chunking_status : Bytes
  pub embedding_status : Bytes

pub record StoredFile : Type 0 where
  pub id : Bytes
  pub name : Bytes
  pub url : Bytes
  pub file_type : Bytes
  pub hash : Bytes

-- The operations of a `FileStore` that a processor calls. `is_not_found` is `errors.Is` with
-- `ErrNotFound`; an operation without a value gives its error, if any.
pub record FileStore (W E : Type 0) : Type 0 where
  pub create_file : FileRecord → W → (E ⊎ Bytes) × W
  pub create_document : DocumentRecord → W → (E ⊎ Bytes) × W
  pub append_to_document : Bytes → Bytes → W → Option E × W
  pub update_file_chunk_stats : Bytes → ChunkStats → W → Option E × W
  pub create_chunk : ChunkRecord → W → (E ⊎ Bytes) × W
  pub get_file : Bytes → W → (E ⊎ StoredFile) × W
  pub delete_file : Bytes → W → Option E × W
  pub is_not_found : E → Bool

-- `ProcessImage` of a path and a prompt, with a bound on the tokens.
abbrev pub VlProvider : Type 0 → Type 0 → Type 0
VlProvider W E = Bytes → Bytes → ℤ → W → (E ⊎ Bytes) × W

-- `Generate` of a system and a user prompt, within a time.
abbrev pub LanguageModel : Type 0 → Type 0 → Type 0
LanguageModel W E = ℤ → Bytes → Bytes → W → (E ⊎ Bytes) × W

-- A chunker cuts a text.
abbrev pub ChunkerInterface : Type 0
ChunkerInterface = Bytes → List Bytes

pub record Config (W E V : Type 0) : Type 0 where
  pub file_store : Option (FileStore W E)
  pub rag_processor : Option (RagProcessor W E V)
  pub chunker : Option ChunkerInterface
  pub vl_provider : Option (VlProvider W E)
  pub language_model : Option (LanguageModel W E)
  pub file_base_dir : Bytes
  pub image_vl_max_tokens : ℤ
  pub ocr_cleanup_timeout : ℤ

pub record Processor (W E V : Type 0) : Type 0 where
  pub file_store : FileStore W E
  pub rag : Option (RagProcessor W E V)
  pub chunker : Option ChunkerInterface
  pub vl : Option (VlProvider W E)
  pub lm : Option (LanguageModel W E)
  pub file_base_dir : Bytes
  pub image_vl_max_tokens : ℤ
  pub ocr_cleanup_timeout : ℤ

pub data ConfigError : Type 0 where
  file_store_required : ConfigError

-- A value of the configuration, or the default where it is not positive.
unfoldable or_default : ℤ → ℤ → ℤ
or_default value default = if is_nonpos value then default else value

-- 30 seconds, in nanoseconds.
abbrev pub default_timeout : ℤ
default_timeout = pos 30000000000

module _ {W E V : Type 0} where
  unfoldable new_with_store : Config W E V → FileStore W E → Processor W E V
  unfolding or_default
  new_with_store cfg file_store = record {
    file_store = file_store;
    rag = cfg.rag_processor;
    chunker = cfg.chunker;
    vl = cfg.vl_provider;
    lm = cfg.language_model;
    file_base_dir = cfg.file_base_dir;
    image_vl_max_tokens = or_default cfg.image_vl_max_tokens (pos 2048);
    ocr_cleanup_timeout = or_default cfg.ocr_cleanup_timeout default_timeout;
  }

  -- `New`.
  unfoldable new_processor : Config W E V → ConfigError ⊎ Processor W E V
  new_processor cfg = elim cfg.file_store [
    | none ↦ inl file_store_required
    | some file_store ↦ inr (new_with_store cfg file_store)
  ]

  unfoldable set_vl_provider : Option (VlProvider W E) → Processor W E V → Processor W E V
  set_vl_provider provider p = record p { vl = provider }

  unfoldable set_language_model : Option (LanguageModel W E) → Processor W E V → Processor W E V
  set_language_model model p = record p { lm = model }

-- The machine that a processor runs on: the files as they stand in a state, the program
-- `tesseract`, and the package `json`. A run of `tesseract` is given the image and the arguments
-- behind it.
pub record Host (W E T : Type 0) : Type 0 where
  pub readers : W → Readers E T
  pub fs : FileSystem W E
  pub look_path : Bytes → W → E ⊎ Bytes
  pub run_command : Bytes → List Bytes → W → E ⊎ Bytes
  pub encode_metadata : FileMetadata T → Bytes
  pub encode_pages : List DocumentPage → Bytes
