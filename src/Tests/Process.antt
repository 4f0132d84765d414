-- ===== src/Tests/Process.antt =====
-- A processor over a log of the calls that are made.
use fileprocessor.Base.{
  ℕ, refl, inl, inr, true, false, none, some, List, [], ◌∷◌, ◌==◌, Bytes, codes, pos,
}
use fileprocessor.Paths.{is_abs}
use fileprocessor.Storage.{FileSystem, safe_delete}
use fileprocessor.Storage.Inside.{RemovesBelow, safe_delete-RemovesBelow}
use fileprocessor.Loader.{Readers}
use fileprocessor.Processor.{FileStore, Processor, Host, default_timeout}
use fileprocessor.Processor.Run.{Request, Response, process_file}
use fileprocessor.Processor.Outcomes.{Ending, process_file-Ending}
use fileprocessor.Processor.Drains.{Drains, Run}

abbrev Log : Type 0
Log = List Bytes

abbrev file_system : FileSystem Log Bytes
file_system = record {
  stat = λ path log. inr (false, 5);
  read = λ path log. inr (inr (codes "bytes"));
  sha256_hex = λ content. codes "00";
  remove = λ path log. (none, path ∷ log);
  mkdir_all = λ path log. (none, log);
  copy_file = λ to from log. (none, log);
  time_now = λ log. (1, log);
}

safe_delete-RemovesBelow_example :
    RemovesBelow file_system
      (codes "/data")
      []
      (safe_delete file_system (codes "/data/a/../b") (codes "/data") [])
safe_delete-RemovesBelow_example =
    safe_delete-RemovesBelow file_system (codes "/data") [] (codes "/data/a/../b")
      (unfold is_abs in refl)

abbrev readers : Readers Bytes ℕ
readers = record {
  stat = λ path. inr 7;
  is_zero = λ time. time == 0;
  read_file = λ path. inr (codes "text");
  new_pdf_reader = λ content. inl (codes "no PDF");
  read_office = λ format content. inl (codes "corrupt");
  open_pdf = λ path. inl (codes "no PDF");
  open_office = λ format path. inl (codes "corrupt");
}

abbrev host : Host Log Bytes ℕ
host = record {
  readers = λ log. readers;
  fs = file_system;
  look_path = λ program log. inr program;
  run_command = λ program arguments log. inr (codes " Exit 12\n");
  encode_metadata = λ metadata. metadata.filename;
  encode_pages = λ pages. [];
}

abbrev file_store : FileStore Log Bytes
file_store = record {
  create_file = λ rec log. (inr (codes "f1"), rec.name ∷ log);
  create_document = λ rec log. (inr (codes "d1"), rec.title ∷ log);
  append_to_document = λ file_id text log. (none, text ∷ log);
  update_file_chunk_stats = λ file_id stats log. (none, log);
  create_chunk = λ rec log. (inr rec.text, rec.text ∷ log);
  get_file = λ file_id log. (inl (codes "not found"), log);
  delete_file = λ file_id log. (none, log);
  is_not_found = λ err. true;
}

abbrev processor : Processor Log Bytes ℕ
processor = record {
  file_store = file_store;
  rag = none;
  chunker = none;
  vl = some (λ path prompt max_tokens log. (inl (codes "overloaded"), log));
  lm = none;
  file_base_dir = codes "/data";
  image_vl_max_tokens = pos 2048;
  ocr_cleanup_timeout = default_timeout;
}

abbrev photo : Request
photo = record {
  file_path = codes "/data/exit.png";
  filename = [];
  source = [];
  enable_rag = false;
  is_shared = true;
  file_id = [];
}

process_file-Ending_example : Ending host processor photo [] (process_file host processor photo [])
process_file-Ending_example = process_file-Ending host processor photo []

abbrev photo_response : Response
photo_response = record {
  file_id = codes "f1";
  document_id = codes "d1";
  chunk_ids = [];
  processing = true;
  detected_file_type = codes "png";
}
