-- ===== src/Processor/Rag.antt =====
-- `runRAG` of processor.go.
use fileprocessor.Base.{
  ℕ, ◌+◌, ◌⊎◌, inl, inr, Option, none, some, List, [], ◌∷◌, Bytes, codes, length,
}
use fileprocessor.Ingestion.{RagProcessor, RagProcessRequest, IngestError}
use fileprocessor.Ingestion
use fileprocessor.Processor.{JsonValue, ChunkRecord, ChunkStats, FileStore, ChunkerInterface}

pub data RagError (E : Type 0) : Type 0 where
  rag_not_configured : RagError E
  ingest_failed : IngestError E → RagError E

unfoldable pub stored_chunk : Bytes → Bytes → Bytes → ℕ → Bytes → ChunkRecord
stored_chunk file_id document_id filename i piece = record {
  id = [];
  file_id = file_id;
  document_id = document_id;
  text = piece;
  index = i;
  chunk_type = codes "text";
  metadata = some (
      (codes "filename", JsonValue.json_text filename)
      ∷ (codes "chunk_index", JsonValue.json_number i)
      ∷ (codes "type", JsonValue.json_text (codes "text"))
      ∷ []);
}

unfoldable pub add_created : {E : Type 0} → E ⊎ Bytes → List Bytes → List Bytes
add_created (inl err) ids = ids
add_created (inr id) ids = id ∷ ids

unfoldable pub empty_stats : ChunkStats
empty_stats = record {
  chunk_count = 0;
  chunking_status = codes "empty";
  embedding_status = codes "empty";
}

unfoldable pub pending_stats : ℕ → ChunkStats
pending_stats count = record {
  chunk_count = count;
  chunking_status = codes "success";
  embedding_status = codes "custom-chunker-pending";
}

-- The loop over the pieces of a custom chunker, from number `i` on.
unfoldable pub create_loop :
    {W E : Type 0} → FileStore W E → Bytes → Bytes → Bytes → ℕ → List Bytes → W → List Bytes × W
create_loop file_store file_id document_id filename i [] w = ([], w)
create_loop file_store file_id document_id filename i (piece ∷ pieces) w =
    let (created, w') =
      file_store.create_chunk (stored_chunk file_id document_id filename i piece) w in
    let (ids, w'') = create_loop file_store file_id document_id filename (i + 1) pieces w' in
    (add_created created ids, w'')

unfoldable pub ingested :
    {W E : Type 0} → (IngestError E ⊎ List Bytes) × W → (RagError E ⊎ List Bytes) × W
ingested (inl err, w) = (inl (ingest_failed err), w)
ingested (inr ids, w) = (inr ids, w)

module _ {W E V : Type 0} where
  -- `runRAG` with a custom chunker, by the pieces it gives.
  unfoldable pub rag_of_pieces :
      FileStore W E → RagProcessor W E V → RagProcessRequest → List Bytes → W → List Bytes × W
  rag_of_pieces file_store rag req [] w =
      ([], (file_store.update_file_chunk_stats req.file_id empty_stats w).1)
  rag_of_pieces file_store rag req (piece ∷ pieces) w =
      let (ids, w1) =
        create_loop file_store req.file_id req.document_id req.filename 0 (piece ∷ pieces) w in
      let (updated, w2) =
        file_store.update_file_chunk_stats req.file_id (pending_stats (length ids)) w1 in
      (ids, (Ingestion.process_file rag req w2).1)

  -- `runRAG`.
  unfoldable pub run_rag :
      FileStore W E
      → Option (RagProcessor W E V)
      → Option ChunkerInterface
      → RagProcessRequest
      → Bytes
      → W
      → (RagError E ⊎ List Bytes) × W
  run_rag file_store none chunker req content w = (inl rag_not_configured, w)
  run_rag file_store (some rag) none req content w = ingested (Ingestion.process_file rag req w)
  run_rag file_store (some rag) (some chunk) req content w =
      let (ids, w') = rag_of_pieces file_store rag req (chunk content) w in (inr ids, w')
