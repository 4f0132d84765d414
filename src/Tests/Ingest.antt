-- ===== src/Tests/Ingest.antt =====
-- The ingestion of a short document; the state counts the ids that were drawn.
use fileprocessor.Base.{
  ℕ, ◌+◌, ◌≤◌, ◌≡◌, refl, inr, none, List, [], ◌∷◌, arith, ◌==◌, if◌then◌else◌, Bytes, codes, pos,
  length,
}
use fileprocessor.Ingestion.{
  StoredDocument, RagProcessRequest, RagProcessor, run_stats, chunks_of, process_file,
}
use fileprocessor.Ingestion.Outcomes.{process_file-completes}

abbrev letter : StoredDocument
letter = record { content = codes "Dear reader. Bye."; file_type = codes "md"; raw_pages = [] }

abbrev request : RagProcessRequest
request = record { file_id = codes "f1"; document_id = codes "d1"; filename = codes "letter.md" }

abbrev processor : RagProcessor ℕ Bytes ℕ
processor = record {
  get_document = λ id w. (inr letter, w);
  create_chunk = λ p w. (inr p.id, w);
  update_stats = λ p w. (none, w + 1000);
  embed_texts = λ ts w. (inr ((1 ∷ []) ∷ []), w);
  new_uuid = λ w. (codes "u", w + 1);
  encode_metadata = λ name i meta. name;
  decode_pages = λ raw. none;
  store = none;
  chunk_size = pos 10;
  overlap_size = pos 0;
}

process_file-completes_example :
    (ids : List Bytes) × (last : ℕ) × (process_file processor request 0
      ≡ (inr ids, (processor.update_stats (run_stats (codes "f1") (length ids)) last).1))
    × (length ids ≤ length (if length letter.content == 0 then [] else chunks_of processor letter))
process_file-completes_example =
    process_file-completes processor request letter 0 0 (omega arith) refl
