-- ===== src/Ingestion/Outcomes.antt =====
-- What a run of the ingestion returns and records.
use fileprocessor.Base.{
  ℕ, suc, ◌+◌, ◌≤◌, ◌<◌, ◌≡◌, refl, inr, false, Option, none, some, List, [], ◌∷◌, arith, ◌==◌,
  if◌then◌else◌, Bytes, length,
}
use fileprocessor.RagChunker.{DocumentChunk}
use fileprocessor.Ingestion.{
  StoredDocument, RagProcessRequest, RagProcessor, add_id, run_stats, ingest_chunk, ingest_loop,
  chunks_of, ingest_chunks, after_document, process_file,
}

length-add_id :
    (found : Option Bytes) (ids : List Bytes) → length (add_id found ids) ≤ suc (length ids)
unfolding add_id
length-add_id none ids = omega arith
length-add_id (some id) ids = omega arith

module _ {W E V : Type 0} (r : RagProcessor W E V) (req : RagProcessRequest) where
  length-ingest_loop :
      (i : ℕ) (chs : List DocumentChunk) (w : W) → length (ingest_loop r req i chs w).0 ≤ length chs
  unfolding ingest_loop
  length-ingest_loop i [] w = omega arith
  length-ingest_loop i (ch ∷ chs) w =
      let round = ingest_chunk r req i ch w in
      let rest = ingest_loop r req (i + 1) chs round.1 in
      omega (arith, length-add_id round.0 rest.0, length-ingest_loop (i + 1) chs round.1)

  -- A run with a document id whose document can be read does not fail, whatever the chunk store, the
  -- embedder and the vector store answer for its chunks: it returns at most one id for each chunk,
  -- none for an empty document, and the last thing it does is to record the number of these ids.
  pub process_file-completes :
      (doc : StoredDocument) (w w' : W)
      → 0 < length req.document_id
      → r.get_document req.document_id w ≡ (inr doc, w')
      → (ids : List Bytes) × (last : W) × (process_file r req w
          ≡ (inr ids, (r.update_stats (run_stats req.file_id (length ids)) last).1))
        × (length ids ≤ length (if length doc.content == 0 then [] else chunks_of r doc))
  unfolding process_file after_document ingest_chunks
  process_file-completes doc w w' some_id there =
      let chunks = if length doc.content == 0 then [] else chunks_of r doc in
      let run = ingest_loop r req 0 chunks w' in
      let not_empty : length req.document_id == 0 ≡ false = ground (arith, some_id) in
      let few : length run.0 ≤ length chunks = length-ingest_loop 0 chunks w' in
      (run.0, run.1, rw (not_empty, there) refl, few)
