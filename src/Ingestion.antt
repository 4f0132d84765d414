-- ===== src/Ingestion.antt =====
-- rag_processor.go: the ingestion of a document. The stores and the embedder act on a state of
-- which nothing is known; logging is left out.
pub mod Outcomes
use fileprocessor.Base.{
  ℕ, ◌+◌, ◌⊎◌, inl, inr, true, Option, none, some, List, [], ◌∷◌, ◌++◌, ◌==◌, if◌then◌else◌, Bytes,
  codes, ℤ, length,
}
use fileprocessor.RagChunker.{DocumentPage, DocumentChunk, ChunkMetadata, chunk_document}

-- The parts of a `schema.Document` that are read: the content and two entries of the metadata.
pub record StoredDocument : Type 0 where
  pub content : Bytes
  pub file_type : Bytes
  pub raw_pages : Bytes

pub record CreateChunkParams : Type 0 where
  pub id : Bytes
  pub document_id : Bytes
  pub text : Bytes
  pub index : ℕ
  pub chunk_type : Bytes
  pub metadata : Bytes

pub record UpdateFileStatsParams : Type 0 where
  pub file_id : Bytes
  pub chunk_count : ℕ
  pub chunking_status : Bytes
  pub embedding_status : Bytes

pub record RagProcessRequest : Type 0 where
  pub file_id : Bytes
  pub document_id : Bytes
  pub filename : Bytes

-- The vector store. An operation gives its error, if any.
pub record VectorStore (W E V : Type 0) : Type 0 where
  pub upsert : Bytes → Bytes → List V → W → Option E × W
  pub delete_by_file_id : Bytes → W → Option E × W

-- What a processor is wired with. `new_uuid` and `encode_metadata` stand for the packages `uuid` and
-- `json`, and `decode_pages` for `json.Unmarshal` of the pages, `none` where it fails.
pub record RagProcessor (W E V : Type 0) : Type 0 where
  pub get_document : Bytes → W → (E ⊎ StoredDocument) × W
  pub create_chunk : CreateChunkParams → W → (E ⊎ Bytes) × W
  pub update_stats : UpdateFileStatsParams → W → Option E × W
  pub embed_texts : List Bytes → W → (E ⊎ List (List V)) × W
  pub new_uuid : W → Bytes × W
  pub encode_metadata : Bytes → ℕ → ChunkMetadata → Bytes
  pub decode_pages : Bytes → Option (List DocumentPage)
  pub store : Option (VectorStore W E V)
  pub chunk_size : ℤ
  pub overlap_size : ℤ

pub data IngestError (E : Type 0) : Type 0 where
  no_document_id : IngestError E
  get_document_failed : E → IngestError E
  delete_failed : E → IngestError E

unfoldable pub add_id : Option Bytes → List Bytes → List Bytes
add_id none ids = ids
add_id (some id) ids = id ∷ ids

abbrev pub status : ℕ → Bytes
status count = if count == 0 then codes "empty" else codes "success"

-- The statistics of a run that completed so many chunks.
unfoldable pub run_stats : Bytes → ℕ → UpdateFileStatsParams
run_stats file_id count = record {
  file_id = file_id;
  chunk_count = count;
  chunking_status = status count;
  embedding_status = status count;
}

unfoldable pub delete_result : {W E : Type 0} → Option E × W → Option (IngestError E) × W
delete_result (none, w) = (none, w)
delete_result (some err, w) = (some (delete_failed err), w)

module _ {W E V : Type 0} where
  unfoldable set_chunk_size : ℤ → ℤ → RagProcessor W E V → RagProcessor W E V
  set_chunk_size chunk_size overlap_size r = record r {
    chunk_size = chunk_size;
    overlap_size = overlap_size;
  }

  unfoldable pub parse_pages : RagProcessor W E V → Bytes → List DocumentPage
  parse_pages r raw =
      if length raw == 0 then [] else elim (r.decode_pages raw) [ none ↦ [] | some pages ↦ pages ]

  -- The vector of a chunk goes to the store, if there is one; its error is only logged.
  unfoldable pub put_vector : Option (VectorStore W E V) → Bytes → Bytes → List V → W → W
  put_vector none chunk_id file_id v w = w
  put_vector (some s) chunk_id file_id v w = (s.upsert chunk_id file_id v w).1

  -- A round once the embedder has answered for the chunk: the id, if the chunk is complete.
  unfoldable pub after_embedding :
      RagProcessor W E V → Bytes → Bytes → (E ⊎ List (List V)) × W → Option Bytes × W
  after_embedding r file_id chunk_id (inl err, w) = (none, w)
  after_embedding r file_id chunk_id (inr [], w) = (none, w)
  after_embedding r file_id chunk_id (inr ([] ∷ vs), w) = (none, w)
  after_embedding r file_id chunk_id (inr ((x ∷ v) ∷ vs), w) =
      (some chunk_id, put_vector r.store chunk_id file_id (x ∷ v) w)

  -- A round once the chunk store has answered.
  unfoldable pub after_create :
      RagProcessor W E V → Bytes → Bytes → (E ⊎ Bytes) × W → Option Bytes × W
  after_create r file_id text (inl err, w) = (none, w)
  after_create r file_id text (inr chunk_id, w) =
      after_embedding r file_id chunk_id (r.embed_texts (text ∷ []) w)

  unfoldable pub chunk_params :
      RagProcessor W E V → RagProcessRequest → ℕ → DocumentChunk → Bytes → CreateChunkParams
  chunk_params r req i ch uuid = record {
    id = req.document_id ++ (codes "-" ++ uuid);
    document_id = req.document_id;
    text = ch.content;
    index = i;
    chunk_type = codes "text";
    metadata = r.encode_metadata req.filename i ch.metadata;
  }

  -- The round of chunk `i`.
  unfoldable pub ingest_chunk :
      RagProcessor W E V → RagProcessRequest → ℕ → DocumentChunk → W → Option Bytes × W
  ingest_chunk r req i ch w =
      let (uuid, w') = r.new_uuid w in
      after_create r req.file_id ch.content (r.create_chunk (chunk_params r req i ch uuid) w')

  -- The loop over the chunks from number `i` on: the ids of the chunks that are complete.
  unfoldable pub ingest_loop :
      RagProcessor W E V → RagProcessRequest → ℕ → List DocumentChunk → W → List Bytes × W
  ingest_loop r req i [] w = ([], w)
  ingest_loop r req i (ch ∷ chs) w =
      let (found, w') = ingest_chunk r req i ch w in
      let (ids, w'') = ingest_loop r req (i + 1) chs w' in (add_id found ids, w'')

  unfoldable pub chunks_of : RagProcessor W E V → StoredDocument → List DocumentChunk
  chunks_of r doc =
      chunk_document
        (some (record {
          content = doc.content;
          file_type = doc.file_type;
          pages = parse_pages r doc.raw_pages;
        }))
        (record { enabled = true; chunk_size = r.chunk_size; overlap_size = r.overlap_size })

  -- What is done with the chunks. Without chunks the loop does nothing, and the statistics are the
  -- same as those of the early return.
  unfoldable pub ingest_chunks :
      RagProcessor W E V → RagProcessRequest → List DocumentChunk → W → List Bytes × W
  ingest_chunks r req chunks w =
      let (ids, w') = ingest_loop r req 0 chunks w in
      (ids, (r.update_stats (run_stats req.file_id (length ids)) w').1)

  -- The run once the document is there.
  unfoldable pub after_document :
      RagProcessor W E V
      → RagProcessRequest
      → (E ⊎ StoredDocument) × W
      → (IngestError E ⊎ List Bytes) × W
  after_document r req (inl err, w) = (inl (get_document_failed err), w)
  after_document r req (inr doc, w) =
      let chunks = if length doc.content == 0 then [] else chunks_of r doc in
      let (ids, w') = ingest_chunks r req chunks w in (inr ids, w')

  -- `ProcessFile`.
  unfoldable pub process_file :
      RagProcessor W E V → RagProcessRequest → W → (IngestError E ⊎ List Bytes) × W
  process_file r req w =
      if length req.document_id == 0
      then (inl no_document_id, w)
      else after_document r req (r.get_document req.document_id w)

  -- `DeleteFileVectors`.
  unfoldable pub delete_file_vectors : RagProcessor W E V → Bytes → W → Option (IngestError E) × W
  delete_file_vectors r file_id w = elim r.store [
    | none ↦ (none, w)
    | some s ↦ delete_result (s.delete_by_file_id file_id w)
  ]
